-- ===== src/Examples/Completion.antt =====
-- The theorems on TLS completions and failures at concrete messages.
use cafe_persistence.Prelude.{
  ◌≡◌, refl, Bool, true, false, ◌≤◌, none, some, List, [], ◌∷◌, ok, Try, arith, if◌then◌else◌,
  str_eq,
}
use cafe_persistence.Domain.{Uuid, kind_endpoint}
use cafe_persistence.Domain.Tls.{TlsScanResultEntity, from_tls_scan_result}
use cafe_persistence.Db.{Error, statement, transaction}
use cafe_persistence.Db.Table.{first, count, exists, update}
use cafe_persistence.Db.Scripted.{Script, scripted, scripted-IsSerial, start}
use cafe_persistence.Db.Meets.{AllOrNothing}
use cafe_persistence.Tables.{Tables, before_create}
use cafe_persistence.Ledger.{
  has_credit, has_success_usage_for_scan_in_tx, record_success_usage_if_under_limit_in_tx,
  insert_usage_under, validate_scan_usage_kind, is_scan_usage_kind,
}
use cafe_persistence.PlanLimit.{scan_limit, select_user, select_plan, plan_limit}
use cafe_persistence.Domain.Plan.{is_unlimited}
use cafe_persistence.Storage.Tls.{
  on_completed_in_tx, update_or_create, update_tls, create_tls, insert_tls,
}
use cafe_persistence.Ledger.Quota.{credits}
use cafe_persistence.Scan.{success, is_terminal}
use cafe_persistence.Storage.Tls.Writes.{tls_row}
use cafe_persistence.ScanEvents.Subscriber.{
  scan_started, scan_completed, scan_failed, Decoders, Delivery, receive_all,
}
use cafe_persistence.ScanEvents.Deliveries.{receive_all-within}
use cafe_persistence.ScanEvents.{Message, View, Services, CacheKey, CacheEntry, Ready}
use cafe_persistence.ScanEvents.Commit.{commit_tls_completion, persist_tls_failure}
use cafe_persistence.ScanEvents.Completion.{Fault, reported_url, IsCompleted, commit-refines}
use cafe_persistence.ScanEvents.Credits.{completion_has_credit, within_limit, completion_again}
use cafe_persistence.ScanEvents.Handlers.{World, handle_tls_completed}
use cafe_persistence.ScanEvents.Duplicates.{duplicate_completion_ignored}
use cafe_persistence.ScanEvents.Failure.{IsFailed, failure-refines}
use cafe_persistence.Examples.{tables, tls_codec, tls_result}

abbrev services : Services
services = record {
  db = scripted Tables;
  cache = scripted (List (CacheKey × CacheEntry));
  bus = scripted (List Ready);
  codec = tls_codec;
  parse_uuid = λ s. some 7;
  decode = λ s. some tls_result;
  zero_result = tls_result;
  has_db = true;
  has_ledger = true;
  has_plan_limits = true;
  has_nats = true;
}

abbrev message : Uuid → View
message scan_id = record {
  scan_id = scan_id;
  kind = "tls";
  user_id = 7;
  endpoint = "https://a.example";
  address = "";
  error = "";
  result = none;
}

abbrev entity : Uuid → TlsScanResultEntity
entity scan_id = record (from_tls_scan_result tls_codec (some 7) tls_result false) { id = scan_id }

abbrev conn : Script Tables
conn = start tables []

abbrev run : Uuid → Try Error Bool × Script Tables
run scan_id = commit_tls_completion services (message scan_id) (entity scan_id) tls_result conn

abbrev after : Uuid → Tables
after scan_id = (run scan_id).1.tables

acquires : (run 22).0 ≡ ok true
unfolding commit_tls_completion scan_limit statement select_user first select_plan plan_limit
    is_unlimited transaction has_success_usage_for_scan_in_tx count
    record_success_usage_if_under_limit_in_tx insert_usage_under validate_scan_usage_kind
    is_scan_usage_kind from_tls_scan_result on_completed_in_tx update_or_create update_tls
    create_tls insert_tls before_create exists update
acquires = refl

acquires_again : (run 21).0 ≡ ok true
unfolding commit_tls_completion scan_limit statement select_user first select_plan plan_limit
    is_unlimited transaction has_success_usage_for_scan_in_tx count on_completed_in_tx
    update_or_create update_tls create_tls insert_tls before_create exists update
acquires_again = refl

commit-refines_example :
    AllOrNothing
      (IsCompleted
        (message 22)
        (entity 22)
        (reported_url (message 22) (entity 22) tls_result)
        tables)
      (Fault (scripted Tables) 22 tables)
      tables
      (run 22).0
      (after 22)
unfolding from_tls_scan_result
commit-refines_example =
    commit-refines services (scripted-IsSerial Tables) (message 22) (entity 22) refl tables
      tls_result conn refl refl

within_limit_example : credits 7 kind_endpoint (after 22) ≤ 2
unfolding from_tls_scan_result first is_unlimited count
within_limit_example =
    within_limit services (scripted-IsSerial Tables) (message 22) (entity 22) refl tls_result conn
      refl refl refl (omega arith)

completion_has_credit_example :
    (has_credit 22 (after 22) ≡ true)
    × (row : TlsScanResultEntity) × (tls_row 22 (after 22) ≡ some row)
    × (row.status ≡ success)
unfolding from_tls_scan_result
completion_has_credit_example =
    completion_has_credit services (scripted-IsSerial Tables) (message 22) (entity 22) refl
      tls_result conn refl refl true acquires

completion_again_example : (true ≡ true) × ((after 21).scan_usage_events ≡ tables.scan_usage_events)
unfolding from_tls_scan_result count
completion_again_example =
    completion_again services (scripted-IsSerial Tables) (message 21) (entity 21) refl tls_result
      conn refl true refl acquires_again

failure-refines_example :
    let (r, c') = persist_tls_failure services 21 (some 7) "https://a.example" "refused" conn in
    AllOrNothing
      (λ _. IsFailed 21 (some 7) "https://a.example" "refused" tables)
      (Fault (scripted Tables) 21 tables)
      tables
      r
      c'.tables
failure-refines_example =
    failure-refines services (scripted-IsSerial Tables) 21 tables (some 7) "https://a.example"
      "refused" conn refl refl

-- Scan 21 has ended.
abbrev ended : Tables
ended = record tables { tls_scan_results = record (entity 21) { status = success } ∷ [] }

abbrev world : World services
world = record { conn = start ended []; redis = start [] []; nats = start [] [] }

duplicate_completion_ignored_example :
    let (r, w') = handle_tls_completed services (message 21) world in
    (r ≡ ok tt) × (w'.conn.tables ≡ ended) × (w'.redis ≡ world.redis) × (w'.nats ≡ world.nats)
unfolding first from_tls_scan_result is_terminal
duplicate_completion_ignored_example =
    duplicate_completion_ignored services (scripted-IsSerial Tables) (message 21) world
      (record (entity 21) { status = success }) refl refl refl

abbrev incoming : Message
incoming = record {
  scan_id = "22";
  kind = "tls";
  user_id = "7";
  endpoint = "https://a.example";
  address = "";
  error = "refused";
  result = none;
}

abbrev decoders : Decoders
decoders = record {
  decode_started = λ payload. some incoming;
  decode_completed = λ payload. some incoming;
  decode_failed = λ payload. if str_eq payload "" then none else some incoming;
}

abbrev deliveries : List Delivery
deliveries =
    record { subject = scan_completed; payload = "a" }
    ∷ record { subject = scan_failed; payload = "" }
    ∷ record { subject = scan_started; payload = "b" }
    ∷ record { subject = scan_completed; payload = "c" }
    ∷ record { subject = scan_failed; payload = "d" }
    ∷ []

abbrev listening : World services
listening = record {
  conn = start tables (false ∷ true ∷ []);
  redis = start [] [];
  nats = start [] [];
}

receive_all-within_example :
    credits 7 kind_endpoint (receive_all services decoders deliveries listening).conn.tables ≤ 2
unfolding select_user first select_plan is_unlimited count
receive_all-within_example =
    receive_all-within services decoders 7 deliveries listening (scripted-IsSerial Tables) refl refl
      (omega arith)
