-- ===== src/WalletTransition/Guarantees.antt =====
-- What callers of Apply may rely on while no other transaction writes, whatever statements fail.
use cafe_persistence.Prelude.{
  String, ◌≡◌, sym, ◌∙◌, ap, Bool, true, ◌⊎◌, inl, inr, some, arith, str_eq_iff, ok,
}
use cafe_persistence.Domain.{Uuid, ScanResultEntity}
use cafe_persistence.Domain.Entity.{Codec}
use cafe_persistence.Db.{Database, IsSerial}
use cafe_persistence.Tables.{Tables}
use cafe_persistence.WalletTransition.{
  Command, Result, applied, already_applied, retryable, same_transition,
}
use cafe_persistence.WalletTransition.Rows.{new_row}
use cafe_persistence.WalletTransition.Apply.{reloaded, apply}
use cafe_persistence.WalletTransition.Spec.{row_at, Applies}
use cafe_persistence.WalletTransition.Refines.Written.{new_row-IsWritten}
use cafe_persistence.WalletTransition.Transaction.{
  Fault, statement_failed, soft_deleted, nil_id, apply-refines,
}
use cafe_persistence.WalletTransition.Effects.{IsApplied, only_applied_writes, applied-IsApplied}

same_transition_of :
    (s : ScanResultEntity) (id : String) → s.transition_id ≡ some id → same_transition s id ≡ true
unfolding same_transition
same_transition_of s id e = ground (arith, str_eq_iff id id)

module _ (has_ledger : Bool) (scan_id : Uuid) (cmd : Command) (new : ScanResultEntity)
    (t t' : Tables) (r : Result) (s : ScanResultEntity) (found : row_at scan_id t ≡ some s)
    (same : same_transition s cmd.transition_id ≡ true) where
  same_row : (ent : ScanResultEntity) → row_at scan_id t ≡ some ent → ent ≡ s
  same_row ent e = cc

  pub replay_cases :
      Applies has_ledger scan_id cmd new t r t' → (r ≡ reloaded already_applied s) × (t' ≡ t)
  replay_cases (Applies.replayed ent found' _ e e') =
      (e ∙ ap (reloaded already_applied) (same_row ent found'), e')
  replay_cases (Applies.refused ent found' fresh _ _ _) =
      cc (ap (λ (x : ScanResultEntity). same_transition x cmd.transition_id) (same_row ent found'))
  replay_cases (Applies.refused_missing missing _ _ _) = cc
  replay_cases (Applies.uncovered fresh _ _ _ _) = cc (same, rw found at fresh)
  replay_cases (Applies.updated ent m found' fresh _ _ _ _) =
      cc (ap (λ (x : ScanResultEntity). same_transition x cmd.transition_id) (same_row ent found'))
  replay_cases (Applies.created m missing free _ _ _ _) = cc

pub Fault-found :
    (db : Database Tables) (scan_id : Uuid) (t : Tables) (s : ScanResultEntity)
    → row_at scan_id t ≡ some s
    → Fault db scan_id t
    → (c : db.Conn) × (db.fails c ≡ true)
Fault-found db scan_id t s found (statement_failed c down) = (c, down)
Fault-found db scan_id t s found (soft_deleted missing _) = cc
Fault-found db scan_id t s found (nil_id missing _) = cc

module _ (codec : Codec) (db : Database Tables) (has_ledger : Bool) (scan_id : Uuid) (cmd : Command)
    (new : ScanResultEntity) (serial : IsSerial db)
    (writable : new_row codec scan_id cmd ≡ ok new) where
  abbrev run : db.Conn → Result × db.Conn
  run = apply codec db has_ledger scan_id cmd

  -- Unless the outcome is applied, no table is changed.
  pub only_applied_changes :
      (c : db.Conn) → let (r, c') = run c in (r.outcome ≡ applied) ⊎ (db.seen c' ≡ db.seen c)
  only_applied_changes c =
      elim (apply-refines codec db has_ledger scan_id cmd new c serial writable) [
        | inl spec ↦ only_applied_writes has_ledger scan_id cmd new _ _ _ spec
        | inr same ↦ inr same.3
      ]

  -- If the outcome is applied, the scan was in a source state (a missing row counts as PENDING) and
  -- its quota action was covered; its row is now stored with the command's transition, owner and
  -- address and with the status of the row written, and is reported; no other scan is touched, and
  -- the ledger is settled.
  pub applied_writes :
      (c : db.Conn)
      → (run c).0.outcome ≡ applied
      → IsApplied has_ledger scan_id cmd new (db.seen c) (db.seen (run c).1) (run c).0
  applied_writes c h = elim (apply-refines codec db has_ledger scan_id cmd new c serial writable) [
    | inl spec ↦
        applied-IsApplied has_ledger scan_id cmd new _ _ _
          (new_row-IsWritten codec scan_id cmd new writable) spec h
    | inr same ↦ cc ((str_eq_iff retryable applied).1 (sym same.1 ∙ h))
  ]

  -- A command that can be written and was applied may be sent again as long as the row of its scan
  -- is as it left it, whatever else was written since: while nobody else writes during the call,
  -- the tables stay as they are, and the answer is already_applied with the same status, or a
  -- retryable error for which a failed statement is to blame.
  pub apply_again :
      (c c₂ : db.Conn)
      → (run c).0.outcome ≡ applied
      → row_at scan_id (db.seen c₂) ≡ row_at scan_id (db.seen (run c).1)
      → let (r, c₁) = run c in
        let (r₂, c₃) = run c₂ in
        (db.seen c₃ ≡ db.seen c₂)
        × (((r₂.outcome ≡ already_applied) × (r₂.status ≡ r.status))
            ⊎ ((r₂.outcome ≡ retryable) × ((b : db.Conn) × (db.fails b ≡ true))))
  apply_again c c₂ h same =
      let w = applied_writes c h in
      let found : row_at scan_id (db.seen c₂) ≡ some w.stored = same ∙ w.found in
      let id = same_transition_of w.stored cmd.transition_id w.transition in
      elim (apply-refines codec db has_ledger scan_id cmd new c₂ serial writable) [
        | inl spec ↦
            let k = replay_cases has_ledger scan_id cmd new _ _ _ w.stored found id spec in
            (
              k.1,
              inl (
                ap (λ (x : Result). x.outcome) k.0,
                ap (λ (x : Result). x.status) k.0 ∙ ap (λ (x : Result). x.status) (sym w.reported),
              ),
            )
        | inr unchanged ↦ (
          unchanged.3,
          inr (unchanged.1, Fault-found db scan_id (db.seen c₂) w.stored found unchanged.0),
        )
      ]
