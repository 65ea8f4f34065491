-- ===== src/ScanEvents/Commit.antt =====
-- internal/persistence/handlers/scan_events.go: the database part of a completion and of a failure.
use cafe_persistence.Prelude.{
  String, Bool, true, not, ◌||◌, Option, if◌then◌else◌, ◌==◌, ℤ, Exec, pure, ◌>>=◌, ◌>>◌,
}
use cafe_persistence.Domain.{Uuid, nil_uuid, kind_endpoint}
use cafe_persistence.Domain.Tls.{TlsScanResult, TlsScanResultEntity}
use cafe_persistence.Db.{Error, unavailable, transaction}
use cafe_persistence.Ledger.{
  has_success_usage_for_scan_in_tx, record_success_usage_in_tx,
  record_success_usage_if_under_limit_in_tx, release_success_usage_by_scan_id_in_tx,
}
use cafe_persistence.PlanLimit.{scan_limit}
use cafe_persistence.Storage.Tls.{on_completed_in_tx, on_plan_limit_exceeded_in_tx, on_failed_in_tx}
use cafe_persistence.ScanEvents.{View, Services, user_pointer, first_nonempty}

module _ (s : Services) where
  -- A concurrent completion may have inserted the row after the first read.
  abbrev or_reread : Uuid → Bool → Exec s.db.Conn Error Bool
  or_reread scan_id acquired =
      if acquired then pure true else has_success_usage_for_scan_in_tx s.db scan_id

  acquire : Uuid → Uuid → String → ℤ → Bool → Exec s.db.Conn Error Bool
  acquire user_id scan_id kind limit unlimited =
      if unlimited
      then (do record_success_usage_in_tx s.db user_id scan_id kind; pure true)
      else (do
        acquired ← record_success_usage_if_under_limit_in_tx s.db user_id scan_id kind limit
        or_reread scan_id acquired)

  unfoldable pub confirm_existing_usage_or_acquire :
      Uuid → Uuid → String → ℤ → Bool → Exec s.db.Conn Error Bool
  unfolding acquire
  confirm_existing_usage_or_acquire user_id scan_id kind limit unlimited = do
    reserved ← has_success_usage_for_scan_in_tx s.db scan_id
    if reserved then pure true else acquire user_id scan_id kind limit unlimited

  -- the body of the transaction of commitTLSCompletion
  unfoldable pub complete_under_limit :
      View → TlsScanResultEntity → String → ℤ → Bool → Exec s.db.Conn Error Bool
  unfolding confirm_existing_usage_or_acquire
  complete_under_limit msg entity url limit unlimited = do
    acquired ←
        confirm_existing_usage_or_acquire msg.user_id msg.scan_id kind_endpoint limit unlimited
    if acquired
        then on_completed_in_tx s.db msg.scan_id entity
        else on_plan_limit_exceeded_in_tx s.db msg.scan_id (user_pointer msg.user_id) url
    pure acquired

  abbrev pub has_no_quota : View → Bool
  has_no_quota msg =
      msg.user_id == nil_uuid || (not s.has_db || (not s.has_ledger || not s.has_plan_limits))

  -- whether the completion was acquired
  unfoldable pub commit_tls_completion :
      View → TlsScanResultEntity → TlsScanResult → Exec s.db.Conn Error Bool
  unfolding complete_under_limit
  commit_tls_completion msg entity result =
      if has_no_quota msg then (do on_completed_in_tx s.db msg.scan_id entity; pure true) else (do
        limit ← scan_limit s.db msg.user_id kind_endpoint
        let url = first_nonempty (first_nonempty msg.endpoint result.url) entity.url
        transaction s.db unavailable (λ _. unavailable)
            (complete_under_limit msg entity url limit.0 limit.1))

  unfoldable pub persist_tls_failure :
      Uuid → Option Uuid → String → String → Exec s.db.Conn Error Unit
  persist_tls_failure scan_id user_id url message =
      if not s.has_db || not s.has_ledger
      then on_failed_in_tx s.db scan_id user_id url message
      else transaction s.db unavailable (λ _. unavailable)
          (do
            on_failed_in_tx s.db scan_id user_id url message
            release_success_usage_by_scan_id_in_tx s.db scan_id)
