-- ===== src/ScanEvents/Completion.antt =====
-- What commitTLSCompletion promises where the quota applies.
use cafe_persistence.Prelude.{
  ◌≡◌, refl, sym, ap, Bool, true, false, String, none, if◌then◌else◌, ◌==◌, ℤ,
}
use cafe_persistence.Domain.{Uuid, kind_endpoint}
use cafe_persistence.Domain.Tls.{TlsScanResult, TlsScanResultEntity}
use cafe_persistence.Db.{unavailable, Moment, Database, IsSerial, transaction}
use cafe_persistence.Db.Table.{exists}
use cafe_persistence.Db.Meets.{
  Meets, Meets-pure, Meets-bind, AllOrNothing, transaction-AllOrNothing, bind-AllOrNothing,
}
use cafe_persistence.Tables.{Tables, before_create}
use cafe_persistence.Ledger.{is_scan_usage_kind}
use cafe_persistence.PlanLimit.{scan_limit, endpoint_limit, scan_limit-AllOrNothing}
use cafe_persistence.Storage.Tls.{on_completed_in_tx, on_plan_limit_exceeded_in_tx}
use cafe_persistence.Storage.Tls.Writes.{
  Write, tls_row, success_row, limit_row, IsRecorded, on_completed-Meets,
  on_plan_limit_exceeded-Meets,
}
use cafe_persistence.ScanEvents.{View, Services, user_pointer, first_nonempty}
use cafe_persistence.ScanEvents.Commit.{complete_under_limit, commit_tls_completion, has_no_quota}
use cafe_persistence.ScanEvents.Quota.{Confirms, confirmed, taken, over_limit, confirm-Meets}

-- Why a write of a TLS scan can fail: a statement that the database did not answer, or a row that
-- holds the key of a missing scan, a soft-deleted one unless the scan's id is nil.
pub data Fault (db : Database Tables) (scan_id : Uuid) (t : Tables) : Type 0 where
  unanswered : (c : db.Conn) → db.fails c ≡ true → Fault db scan_id t
  key_taken :
      (m : Moment)
      → tls_row scan_id t ≡ none
      → exists (λ r. r.id == before_create scan_id m) t.tls_scan_results ≡ true
      → Fault db scan_id t

-- the row that a completion leaves
abbrev pub final_row : View → TlsScanResultEntity → String → Bool → Write
final_row msg entity url acquired =
    if acquired
    then success_row msg.scan_id entity
    else limit_row msg.scan_id (user_pointer msg.user_id) url

-- The quota is settled, then the row is written: the result as SUCCESS, or FAILED over the limit.
pub record IsCompleted (msg : View) (entity : TlsScanResultEntity) (url : String) (t : Tables)
    (acquired : Bool) (t' : Tables) : Type 0 where
  pub settled : Tables
  pub confirms :
      Confirms msg.user_id msg.scan_id kind_endpoint
        (endpoint_limit msg.user_id t).0
        (endpoint_limit msg.user_id t).1
        t
        acquired
        settled
  pub recorded : IsRecorded msg.scan_id (final_row msg entity url acquired) settled t'

Confirms-tls :
    (user_id scan_id : Uuid) (kind : String) (limit : ℤ) (unlimited : Bool) (t t' : Tables)
    (acquired : Bool)
    → Confirms user_id scan_id kind limit unlimited t acquired t'
    → t'.tls_scan_results ≡ t.tls_scan_results
Confirms-tls user_id scan_id kind limit unlimited t t' acquired (confirmed _ _ e) =
    ap (λ (x : Tables). x.tls_scan_results) e
Confirms-tls user_id scan_id kind limit unlimited t t' acquired (taken m _ _ _ e) =
    ap (λ (x : Tables). x.tls_scan_results) e
Confirms-tls user_id scan_id kind limit unlimited t t' acquired (over_limit _ _ _ _ e) =
    ap (λ (x : Tables). x.tls_scan_results) e

-- the URL that a row over the limit is made with
abbrev pub reported_url : View → TlsScanResultEntity → TlsScanResult → String
reported_url msg entity result = first_nonempty (first_nonempty msg.endpoint result.url) entity.url

endpoint_valid : is_scan_usage_kind kind_endpoint ≡ true
unfolding is_scan_usage_kind
endpoint_valid = refl

module _ (s : Services) (serial : IsSerial s.db) (msg : View) (entity : TlsScanResultEntity)
    (live : entity.deleted_at ≡ none) (t : Tables) where
  still_taken :
      (t₁ : Tables)
      → t₁.tls_scan_results ≡ t.tls_scan_results
      → (m : Moment) → tls_row msg.scan_id t₁ ≡ none
      → exists (λ r. r.id == before_create msg.scan_id m) t₁.tls_scan_results ≡ true
      → Fault s.db msg.scan_id t
  still_taken t₁ e m missing held = Fault.key_taken m (rw (sym e) missing) (rw (sym e) held)

  write-Meets :
      (url : String) (acquired : Bool) (t₁ : Tables)
      → t₁.tls_scan_results ≡ t.tls_scan_results
      → Meets s.db
          (Fault s.db msg.scan_id t)
          t₁
          (if acquired
            then on_completed_in_tx s.db msg.scan_id entity
            else on_plan_limit_exceeded_in_tx s.db msg.scan_id (user_pointer msg.user_id) url)
          (λ _ t'. IsRecorded msg.scan_id (final_row msg entity url acquired) t₁ t')
  write-Meets url true t₁ e =
      on_completed-Meets s.db serial Fault.unanswered t₁ msg.scan_id (still_taken t₁ e) entity live
  write-Meets url false t₁ e =
      on_plan_limit_exceeded-Meets s.db serial Fault.unanswered t₁ msg.scan_id (still_taken t₁ e)
        (user_pointer msg.user_id) url

  complete-Meets :
      (url : String)
      → Meets s.db
          (Fault s.db msg.scan_id t)
          t
          (complete_under_limit s msg entity url
            (endpoint_limit msg.user_id t).0
            (endpoint_limit msg.user_id t).1)
          (IsCompleted msg entity url t)
  unfolding complete_under_limit
  complete-Meets url =
      let limit : ℤ × Bool = endpoint_limit msg.user_id t in
      Meets-bind s.db _ _
        (confirm-Meets s serial Fault.unanswered t msg.user_id msg.scan_id kind_endpoint
          endpoint_valid limit.0 limit.1)
        (λ acquired t₁ h.
          Meets-bind s.db _ _
            (write-Meets url acquired t₁
              (Confirms-tls msg.user_id msg.scan_id kind_endpoint limit.0 limit.1 t t₁ acquired h))
            (λ _ t' k.
              Meets-pure s.db acquired (record { settled = t₁; confirms = h; recorded = k })))

  -- Where the quota applies, nobody else writes and the result is not marked deleted, a TLS
  -- completion settles the quota and leaves the row as `IsCompleted` says, every column of it, or
  -- it answers an error and leaves every table as it was, and a failed statement is to blame or a
  -- row that holds the key of a missing scan.
  pub commit-refines :
      (result : TlsScanResult) (c : s.db.Conn)
      → has_no_quota s msg ≡ false
      → s.db.seen c ≡ t
      → let (r, c') = commit_tls_completion s msg entity result c in
        AllOrNothing
          (IsCompleted msg entity (reported_url msg entity result) t)
          (Fault s.db msg.scan_id t)
          t
          r
          (s.db.seen c')
  unfolding commit_tls_completion
  commit-refines result c quota e =
      let url : String = reported_url msg entity result in
      rw quota (
        bind-AllOrNothing s.db (Fault s.db msg.scan_id t) t (endpoint_limit msg.user_id t)
          (IsCompleted msg entity url t)
          (λ limit.
            transaction s.db unavailable (λ _. unavailable)
              (complete_under_limit s msg entity url limit.0 limit.1))
          (scan_limit s.db msg.user_id kind_endpoint) c
          (scan_limit-AllOrNothing s.db serial Fault.unanswered t msg.user_id c e)
          (λ c' e'.
            transaction-AllOrNothing s.db serial Fault.unanswered (IsCompleted msg entity url t) _ _
              _ c' e' (complete-Meets url)))
