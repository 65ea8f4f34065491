-- ===== src/WalletTransition/Transaction.antt =====
-- Apply as a whole against `Spec`.
use cafe_persistence.Prelude.{◌≡◌, refl, Bool, true, ◌⊎◌, inl, inr, none, ◌==◌, Try, ok, err}
use cafe_persistence.Domain.{Uuid, nil_uuid, ScanResultEntity}
use cafe_persistence.Domain.Entity.{Codec}
use cafe_persistence.Db.{Error, Database, IsSerial, unavailable, transaction}
use cafe_persistence.Db.Table.{exists}
use cafe_persistence.Db.Meets.{AllOrNothing, transaction-AllOrNothing}
use cafe_persistence.Tables.{Tables}
use cafe_persistence.WalletTransition.{Command, Result, outcome_of, retryable}
use cafe_persistence.WalletTransition.Rows.{new_row}
use cafe_persistence.WalletTransition.Apply.{settle, apply_tx, apply}
use cafe_persistence.WalletTransition.Spec.{row_at, Applies}
use cafe_persistence.WalletTransition.Refines.{apply_tx-Meets}

-- Why a transition may fail beside its own refusals: a statement failed, or the id is that of a
-- soft-deleted row, or the id is nil, so that a missing row is not inserted under it.
pub data Fault (db : Database Tables) (scan_id : Uuid) (t : Tables) : Type 0 where
  statement_failed : (c : db.Conn) → db.fails c ≡ true → Fault db scan_id t
  soft_deleted :
      row_at scan_id t ≡ none
      → exists (λ r. r.id == scan_id) t.scan_results ≡ true
      → Fault db scan_id t
  nil_id : row_at scan_id t ≡ none → (scan_id == nil_uuid) ≡ true → Fault db scan_id t

module _ (db : Database Tables) (has_ledger : Bool) (scan_id : Uuid) (cmd : Command)
    (new : ScanResultEntity) where
  abbrev pub Unchanged : Tables → Result → Tables → Type 0
  Unchanged t r t' = Fault db scan_id t × (r.outcome ≡ retryable) × (r.row ≡ none) × (t' ≡ t)

  settle-cases :
      (t t' : Tables) (r : Try (Result × Error) Result)
      → AllOrNothing (Applies has_ledger scan_id cmd new t) (Fault db scan_id t) t r t'
      → Applies has_ledger scan_id cmd new t (settle r) t' ⊎ Unchanged t (settle r) t'
  settle-cases t t' (ok r) h = inl h
  settle-cases t t' (err (r, e)) h = inr (h.0, refl, refl, h.1)

-- While no other transaction writes, a command that can be written is applied as `Applies` says,
-- or it is answered by a retryable error with no row, leaves the tables as they were, and a failed
-- statement, a soft-deleted row of that id or a nil id without a row is to blame.
pub apply-refines :
    (codec : Codec) (db : Database Tables) (has_ledger : Bool) (scan_id : Uuid) (cmd : Command)
    (new : ScanResultEntity) (c : db.Conn)
    → IsSerial db
    → new_row codec scan_id cmd ≡ ok new
    → let (r, c') = apply codec db has_ledger scan_id cmd c in
      Applies has_ledger scan_id cmd new (db.seen c) r (db.seen c')
      ⊎ (Fault db scan_id (db.seen c)
          × (r.outcome ≡ retryable)
          × (r.row ≡ none)
          × (db.seen c' ≡ db.seen c))
unfolding apply
apply-refines codec db has_ledger scan_id cmd new c serial writable =
    let t = db.seen c in
    let begin : Result × Error = (outcome_of "" "", unavailable) in
    let body = apply_tx codec db has_ledger scan_id cmd in
    let out = transaction db begin (λ r. (r, unavailable)) body c in
    settle-cases db has_ledger scan_id cmd new t (db.seen out.1) out.0 (
      transaction-AllOrNothing db serial Fault.statement_failed
        (Applies has_ledger scan_id cmd new t) begin (λ r. (r, unavailable)) body c refl
        (apply_tx-Meets codec db serial has_ledger scan_id cmd new writable Fault.statement_failed t
          Fault.soft_deleted Fault.nil_id))
