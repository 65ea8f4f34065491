-- ===== src/Examples/Serving.antt =====
-- The theorems on the routes of internal/scanapi and on what they read, at concrete requests.
use cafe_persistence.Prelude.{
  ℕ, ◌≤◌, String, ◌≡◌, ◌≢◌, refl, sym, ◌∙◌, ◌⊎◌, inl, true, false, not, Option, none, some, List,
  [], arith, str_eq, Try, ok, err, pos,
}
use cafe_persistence.Domain.{ScanResultEntity}
use cafe_persistence.Db.{Error, Database, statement}
use cafe_persistence.Db.Meets.{AllOrNothing}
use cafe_persistence.Db.Scripted.{Script, scripted, scripted-IsSerial, start}
use cafe_persistence.Db.Table.{first, count}
use cafe_persistence.Db.Ordered.{select, skip, take, IsNewestFirst}
use cafe_persistence.Tables.{Tables}
use cafe_persistence.Pending.{Store}
use cafe_persistence.ScanResults.{
  TextCase, listed_wallet, find_owned_wallet_scan_by_id, delete_owned_wallet_scan,
}
use cafe_persistence.ScanResults.Paging.{pages, list_owner_wallet_scans_discovery_v1-pages}
use cafe_persistence.ScanResults.Deletion.{find_owned_wallet_scan_by_id-delete_owned_wallet_scan}
use cafe_persistence.ScanApi.Text.{trim_space, drop}
use cafe_persistence.ScanApi.Http.{HttpRequest, BusMessage, Backend, Session, Cache, Response}
use cafe_persistence.ScanApi.Query.{parse_pagination, paginate_wallet_scan_entities}
use cafe_persistence.ScanApi.SameFor.{SameFor}
use cafe_persistence.ScanApi.Serve.{
  serve, get_wallet_scans, delete_wallet, service_auth_middleware, refused,
}
use cafe_persistence.ScanApi.Promises.{serve-is_get, serve-SameFor, serve-require_user_id}
use cafe_persistence.ScanApi.Bounds.{
  parse_pagination-bounds, service_auth_middleware-either, is_bearer,
}
use cafe_persistence.Examples.{plain_codec, tables}
use cafe_persistence.WalletObservation.{Contract}
use cafe_persistence.Examples.Reservations.{codec}
use mathlib.Core.List.{Perm}

abbrev pub casing : TextCase
casing = record { lower = λ c. c; sql_lower = λ s. s }

abbrev pub db : Database Tables
db = scripted Tables

abbrev Fault : Type 0
Fault = (c : Script Tables) × (db.fails c ≡ true)

abbrev walked : Try Error (List ScanResultEntity) × Script Tables
walked = pages casing db 7 "" 1 2 0 (start tables [])

list_owner_wallet_scans_discovery_v1-pages_example :
    AllOrNothing
      (λ rows t'.
        Perm rows (select (listed_wallet casing 7 "") tables.scan_results)
        × IsNewestFirst (λ r. r.created_at) (λ r. r.id) rows
        × (t' ≡ tables))
      Fault
      tables
      walked.0
      walked.1.tables
unfolding count trim_space
list_owner_wallet_scans_discovery_v1-pages_example =
    list_owner_wallet_scans_discovery_v1-pages casing db 7 "" 1 (scripted-IsSerial Tables)
      (λ c down. (c, down)) tables 2 (start tables []) refl (omega arith)

deletes : (delete_owned_wallet_scan db 7 11 (start tables [])).0 ≡ ok true
unfolding delete_owned_wallet_scan statement count
deletes = refl

find_owned_wallet_scan_by_id-delete_owned_wallet_scan_example :
    (true ≡ true)
    × ((find_owned_wallet_scan_by_id db 7 11
          (delete_owned_wallet_scan db 7 11 (start tables [])).1).0
        ≡ ok none)
unfolding delete_owned_wallet_scan statement count first
find_owned_wallet_scan_by_id-delete_owned_wallet_scan_example =
    find_owned_wallet_scan_by_id-delete_owned_wallet_scan db (scripted-IsSerial Tables) 7 11
      (start tables []) true deletes refl

abbrev pub contract : Contract
contract = record {
  event_type_wallet_observed = "wallet.observed";
  event_version = "0.1";
  producer_cafe_discovery = "cafe-discovery";
  subject_type_wallet = "wallet";
  posture_classical_only = "classical_only";
  posture_hybrid = "hybrid";
  posture_full_pq = "full_pq";
  posture_unknown = "unknown";
  account_eoa = "eoa";
  account_erc4337_smart_account = "erc4337_smart_account";
  account_contract = "contract_account";
  account_unknown = "unknown";
  algorithm_secp256k1_ecrecover = "secp256k1_ecrecover";
}

abbrev pub backend : Backend
backend = record {
  redis = scripted Store;
  sql = db;
  cache = scripted Cache;
  bus = scripted (List BusMessage);
  has_pending = true;
  has_wallet_scans = true;
  has_tls_scans = true;
  has_ledger = true;
  has_cache = true;
  has_wallet_db = true;
  has_events = true;
  chains = none;
  codec = codec;
  casing = casing;
  entity_codec = plain_codec;
  encode_result = λ r. some r.address;
  encode_failure = λ e. e;
  v01 = contract;
  is_valid_event = λ ev. not (str_eq ev.current_algorithm "");
  upper = λ c. c;
  atoi = λ s. some (pos 1000);
  parse_int = λ s. none;
  format_int = λ v. "";
  parse_bool = λ s. none;
  decode_names = λ s. none;
  time_text = λ t. "";
  by_created_at = λ rows. rows;
}

abbrev pub session : Session backend
session = record {
  redis = start [] [];
  sql = start tables [];
  cache = start [] [];
  bus = start [] [];
}

abbrev pub request : HttpRequest
request = record {
  header_authorization = "bearer abc";
  header_user_id = "seven";
  header_request_id = "r1";
  path_scan_id = "eleven";
  query_limit = "1000";
  query_offset = "";
  query_address = "";
  query_chain_id = "";
  query_latest = "";
  query_scan_id = "";
  query_kind = "";
  reserve_body = none;
  tls_body = none;
  transition_body = none;
}

abbrev listed : Session backend
listed = (serve backend get_wallet_scans request session).1

serve-is_get_example :
    (listed.redis.tables ≡ session.redis.tables)
    × (listed.sql.tables ≡ tables)
    × (listed.cache ≡ session.cache)
serve-is_get_example =
    serve-is_get backend (scripted-IsSerial Store) (scripted-IsSerial Tables) request
      get_wallet_scans session refl

seven : codec.parse_uuid (trim_space "seven") ≡ some 7
unfolding trim_space
seven = refl

seven_is_eight : {A : Type 0} → ◌≡◌ {A = Option ℕ} (some 7) (some 8) → A
seven_is_eight h = cc

not_eight : codec.parse_uuid (trim_space "seven") ≢ some 8
not_eight h = seven_is_eight (sym seven ∙ h)

serve-SameFor_example : SameFor 8 tables (serve backend delete_wallet request session).1.sql.tables
serve-SameFor_example =
    serve-SameFor backend (scripted-IsSerial Store) (scripted-IsSerial Tables) request delete_wallet
      session 8 not_eight refl

abbrev anonymous : HttpRequest
anonymous = record request { header_user_id = " " }

serve-require_user_id_example :
    (response : Response) × (serve backend delete_wallet anonymous session
      ≡ (err response, session))
    × (response.status ≡ 400)
unfolding trim_space
serve-require_user_id_example =
    serve-require_user_id backend anonymous delete_wallet session (inl refl)

parse_pagination-bounds_example :
    (1 ≤ 100)
    × (100 ≤ 100)
    × ((rows : List ScanResultEntity)
        → paginate_wallet_scan_entities rows 100 0 ≡ take 100 (skip 0 rows))
unfolding parse_pagination
parse_pagination-bounds_example = parse_pagination-bounds backend "1000" ""

abbrev answer : String → Try Response Response × Session backend
answer expected =
    service_auth_middleware backend expected (serve backend get_wallet_scans) request session

service_auth_middleware-either_example :
    ((str_eq (trim_space " abc") "" ≡ false)
      × (trim_space (drop 7 (trim_space "bearer abc")) ≡ trim_space " abc")
      × (is_bearer backend " abc" request ≡ true)
      × (answer " abc" ≡ serve backend get_wallet_scans request session))
    ⊎ ((str_eq (trim_space " abc") "" ≡ true
          ⊎ (trim_space (drop 7 (trim_space "bearer abc")) ≢ trim_space " abc"
              ⊎ is_bearer backend " abc" request ≡ false))
        × (answer " abc" ≡ (err (refused backend " abc" request), session)))
service_auth_middleware-either_example =
    service_auth_middleware-either backend " abc" request (serve backend get_wallet_scans) session
