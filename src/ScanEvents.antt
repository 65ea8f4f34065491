-- ===== src/ScanEvents.antt =====
-- internal/persistence/handlers: the messages of scan_events.go and wire.go, and what the handler
-- is wired to. It meets Postgres, Redis and NATS; each is a `Database` parameter of its own, and a
-- statement on Redis sets one key, on NATS publishes one message. uuid.Parse and the decoding of a
-- result are parameters too.
pub mod Commit
pub mod Handlers
pub mod Quota
pub mod Completion
pub mod Credits
pub mod Failure
pub mod Duplicates
pub mod Subscriber
pub mod Limits
pub mod Limited
pub mod Deliveries
use cafe_persistence.Prelude.{
  ℕ, String, Bool, true, false, not, ◌&&◌, ◌||◌, Option, none, some, List, [], ◌∷◌, ◌++◌,
  if◌then◌else◌, ◌==◌, str_eq, is_some, ℤ, Try, ok, err, Exec, pure, raise, ◌>>=◌, ◌>>◌,
}
use cafe_persistence.Domain.{Uuid, nil_uuid, kind_endpoint}
use cafe_persistence.Domain.Tls.{TlsScanResult, TlsScanResultEntity, TlsCodec, from_tls_scan_result}
use cafe_persistence.Db.{
  Error, unavailable, decode_failed, invalid_uuid, Moment, Database, statement, transaction,
}
use cafe_persistence.Tables.{Tables}
use cafe_persistence.Ledger.{
  has_success_usage_for_scan_in_tx, record_success_usage_in_tx,
  record_success_usage_if_under_limit_in_tx, release_success_usage_by_scan_id_in_tx,
}
use cafe_persistence.PlanLimit.{scan_limit}
use cafe_persistence.Scan.{success, failed, valid_transition}
use cafe_persistence.Storage.Tls.{
  get_status, on_started, on_completed_in_tx, on_plan_limit_exceeded_in_tx, on_failed_in_tx,
}

abbrev pub kind_tls : String
kind_tls = "tls"

-- lifecycle.Started, Completed and Failed, with the raw text of a result
pub record Message : Type 0 where
  pub scan_id : String
  pub kind : String
  pub user_id : String
  pub endpoint : String
  pub address : String
  pub error : String
  pub result : Option String

-- scanStarted, scanCompleted and scanFailed
pub record View : Type 0 where
  pub scan_id : Uuid
  pub kind : String
  pub user_id : Uuid
  pub endpoint : String
  pub address : String
  pub error : String
  pub result : Option String

-- lifecycle.Ready
pub record Ready : Type 0 where
  pub user_id : Uuid
  pub kind : String
  pub endpoint : String
  pub address : String
  pub status : String

-- The key "tls:user:" + user_id + ":" + url, by its parts.
pub record CacheKey : Type 0 where
  pub user_id : Uuid
  pub url : String

pub data CacheEntry : Type 0 where
  saved : TlsScanResult → CacheEntry
  failure : String → CacheEntry

-- SET: the last entry of a key counts
abbrev pub set_key :
    CacheKey
    → CacheEntry
    → Moment
    → List (CacheKey × CacheEntry)
    → Try Error (Unit {0}) × List (CacheKey × CacheEntry)
set_key key entry m entries = (ok tt, (key, entry) ∷ entries)

abbrev pub publish : Ready → Moment → List Ready → Try Error (Unit {0}) × List Ready
publish ready m sent = (ok tt, sent ++ ready ∷ [])

-- The outside services, and which of the handler's dependencies are set.
pub record Services : Type 1 where
  pub db : Database Tables
  pub cache : Database (List (CacheKey × CacheEntry))
  pub bus : Database (List Ready)
  pub codec : TlsCodec
  pub parse_uuid : String → Option Uuid
  pub decode : String → Option TlsScanResult
  pub zero_result : TlsScanResult
  pub has_db : Bool
  pub has_ledger : Bool
  pub has_plan_limits : Bool
  pub has_nats : Bool

-- a nil pointer for uuid.Nil
abbrev pub user_pointer : Uuid → Option Uuid
user_pointer user_id = if user_id == nil_uuid then none else some user_id

abbrev pub first_nonempty : String → String → String
first_nonempty a b = if str_eq a "" then b else a

module _ (s : Services) where
  or_invalid : Option Uuid → Try Error Uuid
  or_invalid none = err invalid_uuid
  or_invalid (some id) = ok id

  abbrev view_of : Message → Try Error Uuid → Try Error Uuid → Try Error View
  view_of msg (err e) user_id = err e
  view_of msg (ok scan_id) (err e) = err e
  view_of msg (ok scan_id) (ok user_id) = ok (record {
    scan_id = scan_id;
    kind = msg.kind;
    user_id = user_id;
    endpoint = msg.endpoint;
    address = msg.address;
    error = msg.error;
    result = msg.result;
  })

  -- newScanStarted, newScanCompleted, newScanFailed by wireIDs
  unfoldable pub new_view : Message → Try Error View
  unfolding or_invalid
  new_view msg =
      view_of msg (or_invalid (s.parse_uuid msg.scan_id)) (or_invalid (s.parse_uuid msg.user_id))

  abbrev decoded : Option TlsScanResult → Try Error TlsScanResult
  decoded none = err decode_failed
  decoded (some r) = ok r

  unfoldable pub decode_result : Option String → Try Error TlsScanResult
  decode_result none = ok s.zero_result
  decode_result (some raw) = decoded (s.decode raw)
