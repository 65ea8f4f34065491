-- ===== src/Ledger.antt =====
-- internal/repository/scan_usage_ledger_repository.go: the ledger of credits, one row a scan.
-- A statement reads or writes `scan_usage_events`; the advisory lock of Postgres changes no row
-- and is a statement that may fail.
pub mod Quota
use cafe_persistence.Prelude.{
  ℕ, ◌+◌, String, Bool, true, false, ◌&&◌, ◌||◌, Option, none, some, List, [], ◌∷◌, ◌++◌,
  if◌then◌else◌, ltb, ◌==◌, str_eq, ℤ, is_non_positive, pos_part, Try, ok, err, Exec, pure, raise,
  ◌>>=◌, ◌>>◌,
}
use cafe_persistence.Domain.{
  Uuid, ScanResultEntity, ScanUsageEventEntity, kind_wallet, kind_endpoint,
}
use cafe_persistence.Domain.Tls.{TlsScanResultEntity}
use cafe_persistence.Db.{Error, invalid_scan_usage_kind, Moment, Database, statement, transaction}
use cafe_persistence.Db.Table.{count, delete, exists}
use cafe_persistence.Tables.{Tables, Statement, is_null, on_scan_usage_events}
use cafe_persistence.Scan.{pending, running, success}

unfoldable pub is_scan_usage_kind : String → Bool
is_scan_usage_kind kind = str_eq kind kind_wallet || str_eq kind kind_endpoint

abbrev pub of_user_kind : Uuid → String → ScanUsageEventEntity → Bool
of_user_kind user_id kind e = e.user_id == user_id && str_eq e.scan_kind kind

abbrev pub of_scan : Uuid → ScanUsageEventEntity → Bool
of_scan scan_id e = e.scan_id == scan_id

-- Is there a credit for the scan in the ledger?
abbrev pub has_credit : Uuid → Tables → Bool
has_credit scan_id t = ltb 0 (count (of_scan scan_id) t.scan_usage_events)

abbrev pub usage_event : Uuid → Uuid → String → Moment → ScanUsageEventEntity
usage_event user_id scan_id kind m = record {
  id = m.fresh;
  user_id = user_id;
  scan_id = scan_id;
  scan_kind = kind;
  consumed_at = m.now;
}

-- INSERT … ON CONFLICT (scan_id) DO NOTHING
unfoldable pub insert_usage : Uuid → Uuid → String → Statement ScanUsageEventEntity Unit
insert_usage user_id scan_id kind m rows =
    if exists (of_scan scan_id) rows
    then (ok tt, rows)
    else (ok tt, rows ++ usage_event user_id scan_id kind m ∷ [])

-- INSERT … SELECT … WHERE (SELECT COUNT(*) …) < limit ON CONFLICT (scan_id) DO NOTHING; answers
-- whether a row was inserted
unfoldable pub insert_usage_under : Uuid → Uuid → String → ℕ → Statement ScanUsageEventEntity Bool
insert_usage_under user_id scan_id kind limit m rows =
    if ltb (count (of_user_kind user_id kind) rows) limit
    then (if exists (of_scan scan_id) rows
        then (ok false, rows)
        else (ok true, rows ++ usage_event user_id scan_id kind m ∷ []))
    else (ok false, rows)

abbrev count_usage : Uuid → String → Statement ScanUsageEventEntity ℕ
count_usage user_id kind m rows = (ok (count (of_user_kind user_id kind) rows), rows)

abbrev has_usage : Uuid → Statement ScanUsageEventEntity Bool
has_usage scan_id m rows = (ok (ltb 0 (count (of_scan scan_id) rows)), rows)

abbrev delete_usage : Uuid → Statement ScanUsageEventEntity Unit
delete_usage scan_id m rows = (ok tt, delete (of_scan scan_id) rows)

abbrev is_in_flight : String → Bool
is_in_flight s = str_eq s pending || str_eq s running || str_eq s ""

abbrev wallet_of : Uuid → (String → Bool) → ScanResultEntity → Bool
wallet_of user_id has_status r = is_null r.deleted_at && r.user_id == user_id && has_status r.status

abbrev is_user : Uuid → Option Uuid → Bool
is_user user_id none = false
is_user user_id (some u) = u == user_id

abbrev tls_of : Uuid → (String → Bool) → TlsScanResultEntity → Bool
tls_of user_id has_status r =
    is_null r.deleted_at
    && is_user user_id r.user_id
    && (if r.is_default then false else has_status r.status)

-- the SELECT COUNT(*) on the table of the kind
abbrev pub count_scans : Uuid → String → (String → Bool) → Moment → Tables → Try Error ℕ × Tables
count_scans user_id kind has_status m t =
    if str_eq kind kind_wallet
    then (ok (count (wallet_of user_id has_status) t.scan_results), t)
    else (ok (count (tls_of user_id has_status) t.tls_scan_results), t)

module _ (db : Database Tables) where
  unfoldable pub validate_scan_usage_kind : String → Exec db.Conn Error Unit
  validate_scan_usage_kind kind =
      if is_scan_usage_kind kind then pure tt else raise invalid_scan_usage_kind

  unfoldable pub record_success_usage_in_tx : Uuid → Uuid → String → Exec db.Conn Error Unit
  record_success_usage_in_tx user_id scan_id kind = do
    validate_scan_usage_kind kind
    statement db (on_scan_usage_events (insert_usage user_id scan_id kind))

  unfoldable pub count_success_usage : Uuid → String → Exec db.Conn Error ℕ
  count_success_usage user_id kind = do
    validate_scan_usage_kind kind
    statement db (on_scan_usage_events (count_usage user_id kind))

  unfoldable pub count_in_flight_scans : Uuid → String → Exec db.Conn Error ℕ
  count_in_flight_scans user_id kind = do
    validate_scan_usage_kind kind
    statement db (count_scans user_id kind is_in_flight)

  unfoldable pub count_visible_success_scans : Uuid → String → Exec db.Conn Error ℕ
  count_visible_success_scans user_id kind = do
    validate_scan_usage_kind kind
    statement db (count_scans user_id kind (λ s. str_eq s success))

  -- the lock changes no row
  abbrev lock_user_kind_quota : Exec db.Conn Error Unit
  lock_user_kind_quota = statement db (λ m t. (ok tt, t))

  unfoldable pub try_acquire_success_slot_in_tx : Uuid → String → ℤ → Exec db.Conn Error Bool
  try_acquire_success_slot_in_tx user_id kind limit =
      if is_non_positive limit then pure true else (do
        validate_scan_usage_kind kind
        lock_user_kind_quota
        n ← statement db (on_scan_usage_events (count_usage user_id kind))
        pure (ltb n (pos_part limit)))

  unfoldable pub record_success_usage_if_under_limit_in_tx :
      Uuid → Uuid → String → ℤ → Exec db.Conn Error Bool
  record_success_usage_if_under_limit_in_tx user_id scan_id kind limit =
      if is_non_positive limit
      then (do record_success_usage_in_tx user_id scan_id kind; pure true)
      else (do
        validate_scan_usage_kind kind
        statement db
            (on_scan_usage_events (insert_usage_under user_id scan_id kind (pos_part limit))))

  unfoldable pub has_success_usage_for_scan_in_tx : Uuid → Exec db.Conn Error Bool
  has_success_usage_for_scan_in_tx scan_id = statement db (on_scan_usage_events (has_usage scan_id))

  unfoldable pub release_success_usage_by_scan_id_in_tx : Uuid → Exec db.Conn Error Unit
  release_success_usage_by_scan_id_in_tx scan_id =
      statement db (on_scan_usage_events (delete_usage scan_id))
