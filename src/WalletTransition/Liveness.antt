-- ===== src/WalletTransition/Liveness.antt =====
-- When Apply does write, what it does to the ledger, and two consequences of its guards.
use cafe_persistence.Prelude.{
  String, ◌≡◌, refl, ◌∙◌, ap, Bool, true, false, ◌⊎◌, inl, inr, none, some, arith, ◌==◌, str_eq,
  str_eq_iff, ok,
}
use cafe_persistence.Domain.{Uuid, ScanResultEntity, ScanUsageEventEntity}
use cafe_persistence.Domain.Entity.{Codec}
use cafe_persistence.Db.{Database, IsSerial}
use cafe_persistence.Db.Table.{exists, delete, count-delete, count-delete_other}
use cafe_persistence.Tables.{Tables}
use cafe_persistence.Ledger.{of_scan, has_credit}
use cafe_persistence.Scan.{pending, running, success, failed, is_terminal}
use cafe_persistence.WalletTransition.{
  Command, Result, applied, retryable, quota_none, quota_keep, quota_release, contains, logical,
}
use cafe_persistence.WalletTransition.Rows.{new_row}
use cafe_persistence.WalletTransition.Apply.{apply}
use cafe_persistence.WalletTransition.Spec.{row_at, is_covered, state_of, is_replay, Applies}
use cafe_persistence.WalletTransition.Refines.Written.{new_row-IsWritten}
use cafe_persistence.WalletTransition.Transaction.{Fault, apply-refines}
use cafe_persistence.WalletTransition.Guarantees.{applied_writes, Fault-found}

module _ (has_ledger : Bool) (scan_id : Uuid) (cmd : Command) (new : ScanResultEntity)
    (t t' : Tables) (r : Result) (covered : is_covered has_ledger scan_id cmd t ≡ true)
    (allowed : contains cmd.source_states (state_of (row_at scan_id t)) ≡ true) where
  must_apply :
      is_replay (row_at scan_id t) cmd.transition_id ≡ false
      → Applies has_ledger scan_id cmd new t r t'
      → r.outcome ≡ applied
  must_apply fresh (Applies.replayed ent found same _ _) = cc (same, rw found at fresh)
  must_apply fresh (Applies.refused ent found _ out _ _) = cc (out, rw found at allowed)
  must_apply fresh (Applies.refused_missing missing out _ _) = cc (out, rw missing at allowed)
  must_apply fresh (Applies.uncovered _ _ bare _ _) = cc
  must_apply fresh (Applies.updated ent m _ _ _ _ e _) = ap (λ (x : Result). x.outcome) e
  must_apply fresh (Applies.created m _ _ _ _ e _) = ap (λ (x : Result). x.outcome) e

  must_stay :
      row_at scan_id t ≡ none
      → exists (λ x. x.id == scan_id) t.scan_results ≡ true
      → ¬ (Applies has_ledger scan_id cmd new t r t')
  must_stay missing taken (Applies.replayed ent found _ _ _) = cc
  must_stay missing taken (Applies.refused ent found _ _ _ _) = cc
  must_stay missing taken (Applies.refused_missing _ out _ _) = cc (out, rw missing at allowed)
  must_stay missing taken (Applies.uncovered _ _ bare _ _) = cc
  must_stay missing taken (Applies.updated ent m found _ _ _ _ _) = cc
  must_stay missing taken (Applies.created m _ free _ _ _ _) = cc

release_tests : (q : String) → q ≡ quota_release → str_eq q quota_release ≡ true
release_tests q e = (str_eq_iff q quota_release).1 e

keep_tests :
    (q : String)
    → q ≡ quota_keep
    → (str_eq q quota_none ≡ false)
      × (str_eq q quota_keep ≡ true)
      × (str_eq q quota_release ≡ false)
keep_tests q e = rw e (refl, refl, refl)

running_tests : (s : String) → s ≡ running → (str_eq s success ≡ false) × (str_eq s failed ≡ false)
running_tests s e = rw e (refl, refl)

logical-running : (s : String) → s ≡ running → logical s ≡ running
unfolding logical
logical-running s e = rw e refl

of_scan-apart :
    (scan_id j : Uuid)
    → (j == scan_id) ≡ false
    → (e : ScanUsageEventEntity) → of_scan scan_id e ≡ true
    → of_scan j e ≡ false
of_scan-apart scan_id j ne e h = ground arith

module _ (codec : Codec) (db : Database Tables) (has_ledger : Bool) (scan_id : Uuid) (cmd : Command)
    (new : ScanResultEntity) (serial : IsSerial db) (writable : new_row codec scan_id cmd ≡ ok new)
    (c : db.Conn) where
  abbrev result : Result
  result = (apply codec db has_ledger scan_id cmd c).0

  abbrev after : Tables
  after = db.seen (apply codec db has_ledger scan_id cmd c).1

  -- While nobody else writes, a command that can be written and is no replay, from a state among
  -- its sources and with its quota action covered, is applied, or it is answered by a retryable
  -- error and a failed statement is to blame, or the id is that of a soft-deleted row, or it is nil
  -- and has no row.
  pub allowed_applies :
      is_covered has_ledger scan_id cmd (db.seen c) ≡ true
      → contains cmd.source_states (state_of (row_at scan_id (db.seen c))) ≡ true
      → is_replay (row_at scan_id (db.seen c)) cmd.transition_id ≡ false
      → (result.outcome ≡ applied) ⊎ ((result.outcome ≡ retryable) × Fault db scan_id (db.seen c))
  allowed_applies covered allowed fresh =
      elim (apply-refines codec db has_ledger scan_id cmd new c serial writable) [
        | inl spec ↦ inl (must_apply has_ledger scan_id cmd new _ _ _ covered allowed fresh spec)
        | inr same ↦ inr (same.1, same.0)
      ]

  -- The id of a soft-deleted scan is never written again: a command that may start from PENDING
  -- and whose quota action is covered is answered by a retryable error however often it is sent,
  -- also when no statement fails, and no table is changed.
  pub soft_deleted_retries :
      row_at scan_id (db.seen c) ≡ none
      → exists (λ x. x.id == scan_id) (db.seen c).scan_results ≡ true
      → contains cmd.source_states pending ≡ true
      → is_covered has_ledger scan_id cmd (db.seen c) ≡ true
      → (result.outcome ≡ retryable) × (after ≡ db.seen c)
  soft_deleted_retries missing taken allowed covered =
      elim (apply-refines codec db has_ledger scan_id cmd new c serial writable) [
        | inl spec ↦ absurd (
            must_stay has_ledger scan_id cmd new _ _ _ covered (rw missing allowed) missing taken
              spec)
        | inr same ↦ (same.1, same.3)
      ]

  -- If a release is applied, the scan has no credit left in the ledger, and every other scan has a
  -- credit exactly if it had one.
  pub release_takes_credit :
      (j : Uuid)
      → (j == scan_id) ≡ false
      → cmd.quota_action ≡ quota_release
      → result.outcome ≡ applied
      → (has_credit scan_id after ≡ false) × (has_credit j after ≡ has_credit j (db.seen c))
  release_takes_credit j ne action h =
      let w = applied_writes codec db has_ledger scan_id cmd new serial writable c h in
      let rows = (db.seen c).scan_usage_events in
      let e : after.scan_usage_events ≡ delete (of_scan scan_id) rows =
        w.ledger ∙ rw (release_tests cmd.quota_action action) refl in
      rw e (
        ground (
          arith,
          count-delete (of_scan scan_id) rows,
          count-delete_other (of_scan scan_id) (of_scan j) rows (of_scan-apart scan_id j ne),
        ))

  -- If a keep is applied, the scan had a credit in the ledger, and the ledger is unchanged.
  pub keep_needs_credit :
      cmd.quota_action ≡ quota_keep
      → result.outcome ≡ applied
      → (has_credit scan_id (db.seen c) ≡ true)
        × (after.scan_usage_events ≡ (db.seen c).scan_usage_events)
  keep_needs_credit action h =
      let w = applied_writes codec db has_ledger scan_id cmd new serial writable c h in
      let tests = keep_tests cmd.quota_action action in
      let covered = w.covered in (ground (arith, tests, covered), w.ledger ∙ rw tests.2 refl)

  reopened : cmd.target_state ≡ running → result.outcome ≡ applied → result.status ≡ running
  reopened target h =
      let w = applied_writes codec db has_ledger scan_id cmd new serial writable c h in
      let tests = running_tests cmd.target_state target in
      let status : new.status ≡ running =
        (new_row-IsWritten codec scan_id cmd new writable).status ∙ ground (arith, tests) in
      ap (λ (x : Result). x.status) w.reported ∙ logical-running w.stored.status (w.status ∙ status)

  -- A terminal scan is opened again by a RUNNING command without quota that names the terminal
  -- state among its sources: it is applied and leaves the scan RUNNING, or a failed statement is
  -- to blame.
  pub terminal_reopened :
      (ent : ScanResultEntity)
      → row_at scan_id (db.seen c) ≡ some ent
      → is_terminal (state_of (some ent)) ≡ true
      → contains cmd.source_states (state_of (some ent)) ≡ true
      → is_replay (some ent) cmd.transition_id ≡ false
      → cmd.target_state ≡ running
      → cmd.quota_action ≡ quota_none
      → ((result.status ≡ running) × (result.outcome ≡ applied))
        ⊎ ((b : db.Conn) × (db.fails b ≡ true))
  terminal_reopened ent found terminal allowed fresh target action =
      let covered : is_covered has_ledger scan_id cmd (db.seen c) ≡ true =
        rw ((str_eq_iff cmd.quota_action quota_none).1 action) refl in
      elim (allowed_applies covered (rw found allowed) (rw found fresh)) [
        | inl done ↦ inl (reopened target done, done)
        | inr (_, fault) ↦ inr (Fault-found db scan_id (db.seen c) ent found fault)
      ]
