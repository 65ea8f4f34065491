-- ===== src/Policies/Routes.antt =====
-- The handlers of internal/cpapi/handler.go over the store, and the routes of server.go. The error
-- side of `Exec` is the response of an early return. uuid.Parse and strconv.Atoi are parameters.
use cafe_persistence.Prelude.{
  ℕ, String, Bool, not, ◌||◌, Option, none, some, List, [], ◌∷◌, map, if◌then◌else◌, ltb, ◌==◌,
  str_eq, ℤ, pos, is_non_positive, pos_part, Exec, pure, raise, on_err, ◌>>=◌, ◌>>◌,
}
use cafe_persistence.Domain.{Uuid, nil_uuid}
use cafe_persistence.Db.{Database}
use cafe_persistence.ScanApi.Text.{trim_space}
use cafe_persistence.Policies.{
  CryptoPolicyEntity, CreatePolicyInput, OwnerScope, PolicyError, PolicyTexts,
}
use cafe_persistence.Policies.Store.{
  is_nil_map, create_policy, get_policy, delete_policy, list_persisted_policies_for_scan,
  count_policies_by_wallet, count_policies_by_scan,
}
use cafe_persistence.Policies.Http.{
  amount, flag, empty, object, page, PolicyResponse, PolicyRequest, answer_json,
  persistence_unavailable, invalid_request, write_store_error, policy_row_json,
  create_policy_response_json,
}

-- Handler, with the libraries that it calls.
pub record Control : Type 1 where
  pub db : Database (List CryptoPolicyEntity)
  pub has_store : Bool
  pub texts : PolicyTexts
  pub nano_text : ℕ → String
  pub parse_uuid : String → Option Uuid
  pub atoi : String → Option ℤ

module _ (c : Control) (r : PolicyRequest) where
  abbrev pub PolicyHandler : Type 0 → Type 0
  PolicyHandler A = Exec c.db.Conn PolicyResponse A

  unfoldable pub require_that : Bool → PolicyResponse → PolicyHandler (Unit {0})
  require_that holds failed = if holds then pure tt else raise failed

  unfoldable pub present : {A : Type 0} → PolicyResponse → Option A → PolicyHandler A
  present failed none = raise failed
  present failed (some a) = pure a

  -- a UUID that is not nil
  abbrev not_nil : Option Uuid → Option Uuid
  not_nil none = none
  not_nil (some id) = if id == nil_uuid then none else some id

  unfoldable pub require_owner_scope : PolicyHandler OwnerScope
  unfolding require_that present
  require_owner_scope =
      let raw_user = trim_space r.header_user_id in
      (do
        require_that (not (str_eq raw_user "")) (invalid_request r "X-User-Id header is required")
        present (invalid_request r "X-User-Id must be a valid UUID") (c.parse_uuid raw_user)
        pure (record { user_id = raw_user; tenant_id = trim_space r.header_tenant_id }))

  abbrev pub scoped : PolicyHandler OwnerScope
  scoped = do
    scope ← require_owner_scope
    require_that c.has_store (persistence_unavailable r)
    pure scope

  abbrev uuid_of : String → Option Uuid
  uuid_of raw = if str_eq raw "" then none else not_nil (c.parse_uuid raw)

  unfoldable pub parse_policy_id_path : PolicyHandler Uuid
  unfolding present
  parse_policy_id_path =
      present (invalid_request r "policy_id must be a UUID") (uuid_of (trim_space r.path_policy_id))

  unfoldable pub query_scan : PolicyHandler Uuid
  unfolding require_that present
  query_scan =
      let raw = trim_space r.query_scan_id in
      (do
        require_that (not (str_eq raw "")) (invalid_request r "scan_id query parameter is required")
        present (invalid_request r "scan_id must be a valid UUID") (not_nil (c.parse_uuid raw)))

  abbrev called : {A : Type 0} → Exec c.db.Conn PolicyError A → PolicyHandler A
  called m = on_err (write_store_error r) m

  abbrev is_complete : CreatePolicyInput → Bool
  is_complete req = not (
      str_eq (trim_space req.wallet_address) ""
      || is_non_positive req.chain_id
      || req.scan_id == nil_uuid
      || str_eq (trim_space req.payload_sha256) ""
      || is_nil_map c.texts c.db req.payload
      || req.wallet_control_verified_at == 0)

  unfoldable pub create_policy_handler : PolicyHandler PolicyResponse
  create_policy_handler = do
    scope ← scoped
    req ← present (invalid_request r "invalid request body") r.body
    require_that (is_complete req) (
        invalid_request r
          "scan_id, wallet_address, chain_id, payload, payload_sha256, and wallet_control_verified_at are required")
    result ← called (create_policy c.texts c.db scope req)
    pure (
        answer_json 201 (object (create_policy_response_json c.texts.uuid_text c.nano_text result)))

  unfoldable pub get_policy_handler : PolicyHandler PolicyResponse
  get_policy_handler = do
    scope ← scoped
    policy_id ← parse_policy_id_path
    rec ← called (get_policy c.texts c.db scope policy_id)
    pure (answer_json 200 (object (policy_row_json c.texts.uuid_text c.nano_text rec)))

  unfoldable pub delete_policy_handler : PolicyHandler PolicyResponse
  delete_policy_handler = do
    scope ← scoped
    policy_id ← parse_policy_id_path
    called (delete_policy c.texts c.db scope policy_id)
    pure (answer_json 204 empty)

  abbrev parsed_or : ℕ → Option ℤ → ℤ
  parsed_or default none = pos default
  parsed_or default (some v) = v

  abbrev number_or : ℕ → String → ℤ
  number_or default s = if str_eq s "" then pos default else parsed_or default (c.atoi s)

  abbrev limit_of : ℤ → ℕ
  limit_of limit =
      let n = if is_non_positive limit then 20 else pos_part limit in if ltb 100 n then 100 else n

  unfoldable pub list_policies_by_scan_handler : PolicyHandler PolicyResponse
  list_policies_by_scan_handler = do
    scope ← scoped
    scan_id ← query_scan
    let limit = limit_of (number_or 20 r.query_limit)
    let offset = pos_part (number_or 0 r.query_offset)
    result ←
        called
          (list_persisted_policies_for_scan c.texts c.db scope scan_id (pos limit) (pos offset))
    pure (
        answer_json 200 (
          page (map (policy_row_json c.texts.uuid_text c.nano_text) result.items) result.total
            result.limit result.offset))

  unfoldable pub count_policies_by_wallet_handler : PolicyHandler PolicyResponse
  count_policies_by_wallet_handler = do
    scope ← scoped
    let wallet = trim_space r.query_wallet_address
    require_that (not (str_eq wallet ""))
        (invalid_request r "wallet_address query parameter is required")
    counts ← called (count_policies_by_wallet c.texts c.db scope wallet)
    pure (
        answer_json 200
          (object (("exists", flag counts.0) ∷ ("policy_count", amount counts.1) ∷ [])))

  unfoldable pub count_policies_by_scan_handler : PolicyHandler PolicyResponse
  count_policies_by_scan_handler = do
    scope ← scoped
    scan_id ← query_scan
    counts ← called (count_policies_by_scan c.texts c.db scope scan_id)
    pure
        (answer_json 200 (object (("referenced", flag counts.0) ∷ ("count", amount counts.1) ∷ [])))
