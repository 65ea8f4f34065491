-- ===== src/ScanApi/TransitionRoute.antt =====
-- internal/scanapi/transition.go: ApplyWalletTransition, with the projection of a terminal scan to
-- the cache and its messages; the saves of internal/persistence/storage/redis.go for wallets, and
-- PublishJSON of pkg/nats/nats.go.
use cafe_persistence.Prelude.{
  String, Bool, true, false, not, ◌||◌, Option, none, some, List, [], ◌∷◌, if◌then◌else◌, str_eq, ℤ,
  Try, ok, err, Exec, pure, raise, ◌>>=◌, ◌>>◌,
}
use cafe_persistence.Domain.{Uuid, ScanResult, ScanResultEntity}
use cafe_persistence.Domain.Entity.{to_scan_result}
use cafe_persistence.Db.{Error, encode_failed, statement}
use cafe_persistence.Scan.{success, is_terminal}
use cafe_persistence.ScanEvents.{Ready}
use cafe_persistence.ChainConfig.{Blockchain, chain_id_by_network}
use cafe_persistence.WalletTransition.{
  Command, Result, outcome_of, applied, already_applied, retryable, rejected,
}
use cafe_persistence.WalletTransition.Apply.{apply}
use cafe_persistence.WalletObservation.Export.{
  WalletObservedEvent, export_meta_for_scan_job, to_wallet_observed_event,
}
use cafe_persistence.ScanApi.Transition.{Request, transition_command}
use cafe_persistence.ScanApi.Http.{
  text, boolean, Fields, object, Response, HttpRequest, wallet_scan, set_key, BusMessage,
  scan_ready, wallet_observed, publish, Backend, Handler, write_json, write_bad_request, found,
  require_user_id, parse_scan_id_path,
}

-- `omitempty`
abbrev status_field : String → Fields → Fields
status_field status rest = if str_eq status "" then rest else ("status", text status) ∷ rest

-- transitionResponse
abbrev pub transition_response : Result → Bool → Bool → Response
transition_response res projection_ready ready_published = write_json 200 (
    object (
      ("outcome", text res.outcome)
      ∷ status_field res.status (
          ("projection_ready", boolean projection_ready)
          ∷ ("ready_published", boolean ready_published)
          ∷ [])))

abbrev pub chains_of : Option (List Blockchain) → List (String × ℤ)
chains_of none = []
chains_of (some chains) = chain_id_by_network chains

abbrev is_ok : {E A : Type 0} → Try E A → Bool
is_ok (ok a) = true
is_ok (err e) = false

abbrev pub ready_status : ScanResultEntity → String
ready_status row = if str_eq row.status success then "success" else "failed"

-- the message that a terminal scan is ready
abbrev pub ready_of : ScanResultEntity → Ready
ready_of row = record {
  user_id = row.user_id;
  kind = "wallet";
  endpoint = "";
  address = row.address;
  status = ready_status row;
}

module _ (b : Backend) where
  -- calls whose errors are logged; the answer says whether they succeeded
  unfoldable pub try_cache : Exec b.cache.Conn Error (Unit {0}) → Handler b Bool
  try_cache m s = let (r, c) = m s.cache in (ok (is_ok r), record s { cache = c })

  unfoldable pub try_bus : Exec b.bus.Conn Error (Unit {0}) → Handler b Bool
  try_bus m s = let (r, c) = m s.bus in (ok (is_ok r), record s { bus = c })

  abbrev pub save_encoded : Uuid → String → Option String → Exec b.cache.Conn Error (Unit {0})
  save_encoded user_id address none = raise encode_failed
  save_encoded user_id address (some value) =
      statement b.cache (set_key (wallet_scan user_id address) value)

  unfoldable pub save_wallet_scan : Uuid → String → ScanResult → Exec b.cache.Conn Error (Unit {0})
  save_wallet_scan user_id address result = save_encoded user_id address (b.encode_result result)

  unfoldable pub save_wallet_failure : Uuid → String → String → Exec b.cache.Conn Error (Unit {0})
  save_wallet_failure user_id address message =
      statement b.cache (set_key (wallet_scan user_id address) (b.encode_failure message))

  -- An encoding that fails is one of the failures of the bus.
  unfoldable pub publish_json : BusMessage → Exec b.bus.Conn Error (Unit {0})
  publish_json message = statement b.bus (publish message)

  unfoldable pub publish_scan_ready : ScanResultEntity → Handler b Bool
  publish_scan_ready row =
      if not b.has_events then pure false else try_bus (publish_json (scan_ready (ready_of row)))

  -- the event of a row
  abbrev pub observed_of : ScanResultEntity → WalletObservedEvent
  observed_of row =
      to_wallet_observed_event b.v01 b.codec.lower
        (export_meta_for_scan_job b.codec.uuid_text row.id)
        (some (to_scan_result b.entity_codec row)) (chains_of b.chains)

  unfoldable pub publish_wallet_observed : ScanResultEntity → Handler b (Unit {0})
  publish_wallet_observed row =
      let ev = observed_of row in
      if not b.has_events || not (b.is_valid_event ev)
      then pure tt
      else (try_bus (publish_json (wallet_observed ev)) >> pure tt)

  abbrev pub save : ScanResultEntity → Exec b.cache.Conn Error (Unit {0})
  save row =
      if str_eq row.status success
      then save_wallet_scan row.user_id row.address (to_scan_result b.entity_codec row)
      else save_wallet_failure row.user_id row.address row.error

  abbrev pub announce : ScanResultEntity → Handler b (Bool × Bool)
  announce row = do
    ready_ok ← publish_scan_ready row
    if str_eq row.status success then publish_wallet_observed row else pure tt
    pure (true, ready_ok)

  unfoldable pub project_terminal : ScanResultEntity → Handler b (Bool × Bool)
  project_terminal row =
      if not b.has_cache
      then pure (false, false)
      else (do saved ← try_cache (save row); if saved then announce row else pure (false, false))

  abbrev pub project_row : Option ScanResultEntity → Handler b (Bool × Bool)
  project_row none = pure (false, false)
  project_row (some row) =
      if is_terminal row.status then project_terminal row else pure (false, false)

  unfoldable pub project_transition : Result → Handler b (Bool × Bool)
  project_transition res =
      if str_eq res.outcome applied || str_eq res.outcome already_applied
      then project_row res.row
      else pure (false, false)

  abbrev pub request_of : Uuid → Request
  request_of header_user = record {
    parse_uuid = b.codec.parse_uuid;
    lower = b.codec.lower;
    header_user = header_user;
  }

  -- Apply on the database of the handler, which may be nil
  unfoldable pub apply_command : Uuid → Command → Handler b Result
  apply_command scan_id cmd s =
      if not b.has_wallet_db
      then (ok (outcome_of retryable ""), s)
      else (let (res, c) = apply b.entity_codec b.sql b.has_ledger scan_id cmd s.sql in
          (ok res, record s { sql = c }))

  abbrev pub transition : Uuid → Option Command → Handler b Response
  transition scan_id none = pure (transition_response (outcome_of rejected "") false false)
  transition scan_id (some cmd) = do
    res ← apply_command scan_id cmd
    flags ← project_transition res
    pure (transition_response res flags.0 flags.1)

  unfoldable pub apply_wallet_transition : HttpRequest → Handler b Response
  apply_wallet_transition r = do
    header_user ← require_user_id b r
    scan_id ← parse_scan_id_path b r
    body ← found b (write_bad_request r "invalid request body") r.transition_body
    transition scan_id (transition_command (request_of header_user) body)
