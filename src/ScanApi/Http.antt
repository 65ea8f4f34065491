-- ===== src/ScanApi/Http.antt =====
-- internal/scanapi/respond.go, the fields of Handler and the reading of a request in handler.go. An
-- early return of a handler is the error side of `Exec`: the response that ends it. net/http,
-- encoding/json, strconv and unicode are parameters, and so is the check of an event that the wire
-- contract makes. A key of the cache holds its value; its expiry is left out.
use Prim.Native.Char.{Char}
use cafe_persistence.Prelude.{
  ℕ, String, Bool, Option, none, some, List, [], ◌∷◌, ◌++◌, if◌then◌else◌, ◌==◌, str_eq, ℤ, Try, ok,
  Exec, pure, raise, map_err, false,
}
use cafe_persistence.Domain.{Uuid, nil_uuid, ScanResult}
use cafe_persistence.Domain.Entity.{Codec}
use cafe_persistence.Db.{Error, Moment, Database, statement}
use cafe_persistence.Db.Table.{delete}
use cafe_persistence.Tables.{Tables}
use cafe_persistence.Pending.{Store, PendingCodec}
use cafe_persistence.ScanResults.{TextCase}
use cafe_persistence.ChainConfig.{Blockchain}
use cafe_persistence.Domain.Tls.{TlsScanResultEntity}
use cafe_persistence.ScanEvents.{Ready}
use cafe_persistence.WalletObservation.{Contract}
use cafe_persistence.WalletObservation.Export.{WalletObservedEvent}
use cafe_persistence.ScanApi.Text.{trim_space, to_lower}
use cafe_persistence.ScanApi.Transition.{TransitionBody}

pub data Value : Type 0 where
  text : String → Value
  number : ℕ → Value
  boolean : Bool → Value

-- a JSON object
abbrev pub Fields : Type 0
Fields = List (String × Value)

pub data Body : Type 0 where
  empty : Body
  object : Fields → Body
  reservation : Fields → Body
  page : List Fields → ℕ → ℕ → ℕ → Body

-- `request_id` is the header X-Request-Id, "" where it is not set.
pub record Response : Type 0 where
  pub status : ℕ
  pub request_id : String
  pub body : Body

pub record ReserveWalletPendingRequest : Type 0 where
  pub scan_id : Uuid
  pub address : String
  pub created_at : Option ℕ

pub record PutTlsPendingRequest : Type 0 where
  pub scan_id : Uuid
  pub endpoint : String
  pub created_at : Option ℕ

-- The headers, the path value, the query and what decodeJSON makes of the body; "" where absent.
pub record HttpRequest : Type 0 where
  pub header_authorization : String
  pub header_user_id : String
  pub header_request_id : String
  pub path_scan_id : String
  pub query_limit : String
  pub query_offset : String
  pub query_address : String
  pub query_chain_id : String
  pub query_latest : String
  pub query_scan_id : String
  pub query_kind : String
  pub reserve_body : Option ReserveWalletPendingRequest
  pub tls_body : Option PutTlsPendingRequest
  pub transition_body : Option TransitionBody

-- The keys of the write-through cache, by their parts.
pub data ScanKey : Type 0 where
  wallet_scan : Uuid → String → ScanKey
  tls_scan : Uuid → String → ScanKey

abbrev pub Cache : Type 0
Cache = List (ScanKey × String)

abbrev pub same_scan_key : ScanKey → ScanKey → Bool
same_scan_key (wallet_scan u a) (wallet_scan v b) = if u == v then str_eq a b else false
same_scan_key (tls_scan u a) (tls_scan v b) = if u == v then str_eq a b else false
same_scan_key _ _ = false

-- DEL
abbrev pub drop_key : ScanKey → Moment → Cache → Try Error (Unit {0}) × Cache
drop_key key m entries = (ok tt, delete (λ e. same_scan_key e.0 key) entries)

-- SET, of a key that may be set already
abbrev pub with_value : ScanKey → String → Cache → Cache
with_value key value entries = (key, value) ∷ delete (λ e. same_scan_key e.0 key) entries

abbrev pub set_key : ScanKey → String → Moment → Cache → Try Error (Unit {0}) × Cache
set_key key value m entries = (ok tt, with_value key value entries)

-- What is published, under lifecycle.SubjectScanReady and NATSSubjectDiscoveryWalletObservedV01.
pub data BusMessage : Type 0 where
  scan_ready : Ready → BusMessage
  wallet_observed : WalletObservedEvent → BusMessage

abbrev pub publish : BusMessage → Moment → List BusMessage → Try Error (Unit {0}) × List BusMessage
publish message m sent = (ok tt, sent ++ message ∷ [])

-- Handler, with which of its fields are set, and the libraries that it calls.
pub record Backend : Type 1 where
  pub redis : Database Store
  pub sql : Database Tables
  pub cache : Database Cache
  pub bus : Database (List BusMessage)
  pub has_pending : Bool
  pub has_wallet_scans : Bool
  pub has_tls_scans : Bool
  pub has_ledger : Bool
  pub has_cache : Bool
  pub has_wallet_db : Bool
  pub has_events : Bool
  pub chains : Option (List Blockchain)
  pub codec : PendingCodec
  pub casing : TextCase
  pub entity_codec : Codec
  pub encode_result : ScanResult → Option String
  pub encode_failure : String → String
  pub v01 : Contract
  pub is_valid_event : WalletObservedEvent → Bool
  pub upper : Char → Char
  pub atoi : String → Option ℤ
  pub parse_int : String → Option ℤ
  pub format_int : ℤ → String
  pub parse_bool : String → Option Bool
  pub decode_names : String → Option (List String)
  pub time_text : ℕ → String
  pub by_created_at : List TlsScanResultEntity → List TlsScanResultEntity

pub record Session (b : Backend) : Type 0 where
  pub redis : b.redis.Conn
  pub sql : b.sql.Conn
  pub cache : b.cache.Conn
  pub bus : b.bus.Conn

abbrev pub failure : ℕ → String → String → String → Response
failure status request_id code message = record {
  status = status;
  request_id = request_id;
  body = Body.object (("error", text code) ∷ ("message", text message) ∷ []);
}

abbrev pub write_json : ℕ → Body → Response
write_json status payload = record { status = status; request_id = ""; body = payload }

abbrev pub no_content : Response
no_content = record { status = 204; request_id = ""; body = Body.empty }

module _ (r : HttpRequest) where
  unfoldable pub write_error : ℕ → String → String → Response
  write_error status code message = failure status (trim_space r.header_request_id) code message

  unfoldable pub write_service_unavailable : String → Response
  unfolding write_error
  write_service_unavailable message = write_error 503 "service_unavailable" message

  unfoldable pub write_bad_request : String → Response
  unfolding write_error
  write_bad_request message = write_error 400 "invalid_request" message

  unfoldable pub write_not_found : String → Response
  unfolding write_error
  write_not_found message = write_error 404 "not_found" message

module _ (b : Backend) where
  abbrev pub Handler : Type 0 → Type 0
  Handler A = Exec (Session b) Response A

  unfoldable pub normalized_address : String → String
  normalized_address addr = to_lower b.codec.lower (trim_space addr)

  -- a call on one of the stores, and the response to its error
  unfoldable pub on_redis : {A : Type 0} → Response → Exec b.redis.Conn Error A → Handler A
  on_redis failed m s = let (r, c) = m s.redis in (map_err (λ e. failed) r, record s { redis = c })

  unfoldable pub on_sql : {A : Type 0} → Response → Exec b.sql.Conn Error A → Handler A
  on_sql failed m s = let (r, c) = m s.sql in (map_err (λ e. failed) r, record s { sql = c })

  -- a call on the cache whose error is dropped
  unfoldable pub on_cache : Exec b.cache.Conn Error (Unit {0}) → Handler (Unit {0})
  on_cache m s = (ok tt, record s { cache = (m s.cache).1 })

  -- RedisCache.DeleteWalletScan and DeleteTLSScan
  unfoldable pub delete_wallet_scan_key : Uuid → String → Exec b.cache.Conn Error (Unit {0})
  delete_wallet_scan_key user_id address =
      statement b.cache (drop_key (wallet_scan user_id address))

  unfoldable pub delete_tls_scan_key : Uuid → String → Exec b.cache.Conn Error (Unit {0})
  delete_tls_scan_key user_id url = statement b.cache (drop_key (tls_scan user_id url))

  unfoldable pub guard : Bool → Response → Handler (Unit {0})
  guard holds failed = if holds then pure tt else raise failed

  unfoldable pub found : {A : Type 0} → Response → Option A → Handler A
  found failed none = raise failed
  found failed (some a) = pure a

  abbrev user_of : Response → Option Uuid → Handler Uuid
  user_of failed none = raise failed
  user_of failed (some user_id) = if user_id == nil_uuid then raise failed else pure user_id

  unfoldable pub require_user_id : HttpRequest → Handler Uuid
  require_user_id r =
      let raw = trim_space r.header_user_id in
      if str_eq raw ""
      then raise (write_bad_request r "X-User-Id header is required")
      else user_of (write_bad_request r "X-User-Id must be a valid UUID") (b.codec.parse_uuid raw)

  unfoldable pub parse_scan_id_path : HttpRequest → Handler Uuid
  parse_scan_id_path r =
      let raw = trim_space r.path_scan_id in
      let failed = write_bad_request r "scan_id must be a UUID" in
      if str_eq raw "" then raise failed else found failed (b.codec.parse_uuid raw)
