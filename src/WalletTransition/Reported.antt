-- ===== src/WalletTransition/Reported.antt =====
-- The row that a result of Apply carries.
use cafe_persistence.Prelude.{
  String, ◌≡◌, refl, sym, ◌∙◌, ap, Bool, true, false, Option, none, some, if◌then◌else◌, str_eq, ok,
  Bool-cases, inl, inr,
}
use cafe_persistence.Domain.{Uuid, ScanResultEntity}
use cafe_persistence.Domain.Entity.{Codec}
use cafe_persistence.Db.{Database, IsSerial}
use cafe_persistence.Tables.{Tables}
use cafe_persistence.Scan.{is_terminal}
use cafe_persistence.WalletTransition.{
  Command, Result, outcome_of, applied, already_applied, already_running, already_terminal,
  rejected, logical, classify,
}
use cafe_persistence.WalletTransition.Apply.{apply, reloaded}
use cafe_persistence.WalletTransition.Spec.{row_at, Applies}
use cafe_persistence.WalletTransition.Refines.Written.{IsWritten, new_row-IsWritten}
use cafe_persistence.WalletTransition.Transaction.{apply-refines}
use cafe_persistence.WalletTransition.Effects.{applied-IsApplied}
use cafe_persistence.WalletTransition.Rows.{new_row}

not_terminal : {A : Type 0} → false ≡ true → A
not_terminal h = cc

-- A status that is terminal is stored as it is.
pub logical_terminal :
    (status : String) → is_terminal (logical status) ≡ true → logical status ≡ status
unfolding logical is_terminal
logical_terminal status h = elim (Bool-cases (str_eq status "")) [
  | inl blank ↦ not_terminal (rw blank at h)
  | inr given ↦ rw given refl
]

some_same : {A : Type 0} {x y : A} → some x ≡ some y → x ≡ y
some_same h = cc

refusal-row :
    (a c : Bool) (s : String)
    → (if a
        then outcome_of already_running s
        else (if c then outcome_of already_terminal s else outcome_of rejected s)).row
      ≡ none
refusal-row true c s = refl
refusal-row false true s = refl
refusal-row false false s = refl

classify-row : (ent : ScanResultEntity) (cmd : Command) → (classify ent cmd).row ≡ none
unfolding classify
classify-row ent cmd = refusal-row _ _ _

-- The row that a result carries is stored, but for a status that is blank.
abbrev pub Reports : Uuid → Tables → Result → Type 0
Reports scan_id t res =
    (row : ScanResultEntity)
    → res.row ≡ some row
    → (ent : ScanResultEntity) × (row_at scan_id t ≡ some ent)
      × (row ≡ record ent { status = logical ent.status })
      × (res.status ≡ logical ent.status)

pub no_row :
    {A : Type 0} {row : ScanResultEntity} {q : Option ScanResultEntity}
    → q ≡ none
    → q ≡ some row
    → A
no_row e h = cc

module _ (has_ledger : Bool) (scan_id : Uuid) (cmd : Command) (new : ScanResultEntity)
    (t t' : Tables) (res : Result) where
  reloaded-Reports :
      (outcome : String) (stored : ScanResultEntity)
      → row_at scan_id t' ≡ some stored
      → res ≡ reloaded outcome stored
      → Reports scan_id t' res
  reloaded-Reports outcome stored found e row h = (
    stored,
    found,
    sym (some_same (ap (λ (x : Result). x.row) (sym e) ∙ h)),
    ap (λ (x : Result). x.status) e,
  )

  silent-Reports : res.row ≡ none → Reports scan_id t' res
  silent-Reports e row h = no_row e h

  Applies-Reports :
      IsWritten scan_id cmd new
      → Applies has_ledger scan_id cmd new t res t'
      → Reports scan_id t' res
  Applies-Reports w (Applies.replayed ent found _ e same) =
      reloaded-Reports already_applied ent (ap (row_at scan_id) same ∙ found) e
  Applies-Reports w (Applies.refused ent _ _ _ e _) =
      silent-Reports (ap (λ (x : Result). x.row) e ∙ classify-row ent cmd)
  Applies-Reports w (Applies.refused_missing _ _ e _) =
      silent-Reports (ap (λ (x : Result). x.row) e)
  Applies-Reports w (Applies.uncovered _ _ _ e _) = silent-Reports (ap (λ (x : Result). x.row) e)
  Applies-Reports w (Applies.updated ent m found fresh allowed covered e e') =
      let done =
        applied-IsApplied has_ledger scan_id cmd new t t' res w
          (Applies.updated ent m found fresh allowed covered e e')
          (ap (λ (x : Result). x.outcome) e) in
      reloaded-Reports applied done.stored done.found done.reported
  Applies-Reports w (Applies.created m missing free allowed covered e e') =
      let done =
        applied-IsApplied has_ledger scan_id cmd new t t' res w
          (Applies.created m missing free allowed covered e e')
          (ap (λ (x : Result). x.outcome) e) in
      reloaded-Reports applied done.stored done.found done.reported

pub apply-Reports :
    (codec : Codec) (db : Database Tables) (has_ledger : Bool) (scan_id : Uuid) (cmd : Command)
    (new : ScanResultEntity) (c : db.Conn)
    → IsSerial db
    → new_row codec scan_id cmd ≡ ok new
    → let (res, c') = apply codec db has_ledger scan_id cmd c in Reports scan_id (db.seen c') res
apply-Reports codec db has_ledger scan_id cmd new c serial writable =
    elim (apply-refines codec db has_ledger scan_id cmd new c serial writable) [
      | inl spec ↦
          Applies-Reports has_ledger scan_id cmd new _ _ _
            (new_row-IsWritten codec scan_id cmd new writable) spec
      | inr failed ↦ λ row h. no_row failed.2 h
    ]
