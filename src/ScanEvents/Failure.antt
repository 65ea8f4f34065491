-- ===== src/ScanEvents/Failure.antt =====
-- What persistTLSFailure promises where the ledger is wired.
use cafe_persistence.Prelude.{◌≡◌, refl, ◌∙◌, false, not, ◌||◌, Option, some, String, arith, ◌==◌}
use cafe_persistence.Domain.{Uuid}
use cafe_persistence.Domain.Tls.{TlsScanResultEntity}
use cafe_persistence.Db.{unavailable, Moment, IsSerial}
use cafe_persistence.Db.Table.{delete, count-delete, count-delete_other}
use cafe_persistence.Db.Meets.{
  Meets, Meets-bind, Meets-statement, AllOrNothing, transaction-AllOrNothing,
}
use cafe_persistence.Tables.{Tables}
use cafe_persistence.Ledger.{of_scan, has_credit, release_success_usage_by_scan_id_in_tx}
use cafe_persistence.Storage.Tls.Writes.{tls_row, failure_row, IsRecorded, on_failed-Meets}
use cafe_persistence.ScanEvents.{Services}
use cafe_persistence.ScanEvents.Commit.{persist_tls_failure}
use cafe_persistence.ScanEvents.Completion.{Fault}

-- The FAILED row is written, under a new id if the scan's is nil, and the scan has no credit; every
-- other scan has the row and the credit that it had.
pub record IsFailed (scan_id : Uuid) (user_id : Option Uuid) (url message : String) (t t' : Tables)
    : Type 0 where
  pub moment : Moment
  pub row : TlsScanResultEntity
  pub row_is : row ≡ failure_row scan_id user_id url message moment (tls_row scan_id t)
  pub found : tls_row row.id t' ≡ some row
  pub no_credit : has_credit scan_id t' ≡ false
  pub other_rows : (j : Uuid) → (j == row.id) ≡ false → tls_row j t' ≡ tls_row j t
  pub other_credits : (j : Uuid) → (j == scan_id) ≡ false → has_credit j t' ≡ has_credit j t

abbrev without_credit : Uuid → Tables → Tables
without_credit scan_id t = record t {
  scan_usage_events = delete (of_scan scan_id) t.scan_usage_events;
}

no_credit-without :
    (scan_id : Uuid) (t : Tables) → has_credit scan_id (without_credit scan_id t) ≡ false
no_credit-without scan_id t = rw (count-delete (of_scan scan_id) t.scan_usage_events) refl

other_credit-without :
    (scan_id j : Uuid) (t : Tables)
    → (j == scan_id) ≡ false
    → has_credit j (without_credit scan_id t) ≡ has_credit j t
other_credit-without scan_id j t ne =
    rw (count-delete_other (of_scan scan_id) (of_scan j) t.scan_usage_events (λ x h. ground arith))
      refl

released :
    (scan_id : Uuid) (user_id : Option Uuid) (url message : String) (t t₁ : Tables)
    → IsRecorded scan_id (failure_row scan_id user_id url message) t t₁
    → IsFailed scan_id user_id url message t (without_credit scan_id t₁)
released scan_id user_id url message t t₁ h = record {
  moment = h.moment;
  row = h.row;
  row_is = h.row_is;
  found = h.found;
  no_credit = no_credit-without scan_id t₁;
  other_rows = h.others;
  other_credits = λ j ne. other_credit-without scan_id j t₁ ne ∙ rw h.ledger refl;
}

module _ (s : Services) (serial : IsSerial s.db) (scan_id : Uuid) (t : Tables) where
  release-Meets :
      (user_id : Option Uuid) (url message : String) (t₁ : Tables)
      → IsRecorded scan_id (failure_row scan_id user_id url message) t t₁
      → Meets s.db
          (Fault s.db scan_id t)
          t₁
          (release_success_usage_by_scan_id_in_tx s.db scan_id)
          (λ _. IsFailed scan_id user_id url message t)
  unfolding release_success_usage_by_scan_id_in_tx
  release-Meets user_id url message t₁ h =
      Meets-statement s.db serial Fault.unanswered _
        (λ m. released scan_id user_id url message t t₁ h)

  -- Where the ledger is wired and nobody else writes, a TLS failure leaves the row, under a new id
  -- if the scan's is nil and it has none, and returns the credit as `IsFailed` says, or it answers
  -- an error and leaves every table as it was, and a failed statement is to blame or a row that
  -- holds the key of a missing scan.
  pub failure-refines :
      (user_id : Option Uuid) (url message : String) (c : s.db.Conn)
      → (not s.has_db || not s.has_ledger) ≡ false
      → s.db.seen c ≡ t
      → let (r, c') = persist_tls_failure s scan_id user_id url message c in
        AllOrNothing
          (λ _. IsFailed scan_id user_id url message t)
          (Fault s.db scan_id t)
          t
          r
          (s.db.seen c')
  unfolding persist_tls_failure
  failure-refines user_id url message c wired e = rw wired (
      transaction-AllOrNothing s.db serial Fault.unanswered
        (λ _. IsFailed scan_id user_id url message t) unavailable (λ _. unavailable) _ c e
        (Meets-bind s.db _ _
          (on_failed-Meets s.db serial Fault.unanswered t scan_id Fault.key_taken user_id url
            message)
          (λ _ t₁ h. release-Meets user_id url message t₁ h)))
