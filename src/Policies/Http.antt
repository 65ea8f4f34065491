-- ===== src/Policies/Http.antt =====
-- internal/cpapi/respond.go and the JSON objects of internal/cpapi/handler.go. A time is written in
-- RFC 3339 with nanoseconds by a parameter.
use cafe_persistence.Prelude.{
  ℕ, String, Bool, Option, none, some, List, [], ◌∷◌, ◌++◌, if◌then◌else◌, str_eq, ℤ,
}
use cafe_persistence.Domain.{Uuid}
use cafe_persistence.ScanApi.Text.{trim_space}
use cafe_persistence.Policies.{
  JsonMap, PolicyRecord, CreatePolicyInput, CreatePolicyResult, PolicyError, owner_required,
  policy_not_found, policy_already_exists, forbidden, invalid_wallet_address, scan_id_required,
  payload_sha256_required, payload_required, invalid_chain_id, store,
}

pub data PolicyValue : Type 0 where
  text : String → PolicyValue
  number : ℤ → PolicyValue
  amount : ℕ → PolicyValue
  flag : Bool → PolicyValue
  payload : JsonMap → PolicyValue

abbrev pub PolicyFields : Type 0
PolicyFields = List (String × PolicyValue)

pub data PolicyBody : Type 0 where
  empty : PolicyBody
  object : PolicyFields → PolicyBody
  page : List PolicyFields → ℕ → ℕ → ℕ → PolicyBody

-- `request_id` is the header X-Request-Id, "" where it is not set.
pub record PolicyResponse : Type 0 where
  pub status : ℕ
  pub request_id : String
  pub body : PolicyBody

-- The headers, the path value, the query and what decodeJSON makes of the body; "" where absent.
pub record PolicyRequest : Type 0 where
  pub header_user_id : String
  pub header_tenant_id : String
  pub header_request_id : String
  pub path_policy_id : String
  pub query_scan_id : String
  pub query_wallet_address : String
  pub query_limit : String
  pub query_offset : String
  pub body : Option CreatePolicyInput

abbrev pub answer_json : ℕ → PolicyBody → PolicyResponse
answer_json status body = record { status = status; request_id = ""; body = body }

module _ (r : PolicyRequest) where
  abbrev pub policy_failure : ℕ → String → String → PolicyResponse
  policy_failure status code message = record {
    status = status;
    request_id = trim_space r.header_request_id;
    body = PolicyBody.object (("error", text code) ∷ ("message", text message) ∷ []);
  }

  abbrev pub persistence_unavailable : PolicyResponse
  persistence_unavailable =
      policy_failure 503 "PERSISTENCE_UNAVAILABLE" "Persistence is temporarily unavailable."

  abbrev pub invalid_request : String → PolicyResponse
  invalid_request message = policy_failure 400 "INVALID_REQUEST" message

  -- writeStoreError
  unfoldable pub write_store_error : PolicyError → PolicyResponse
  write_store_error policy_not_found = policy_failure 404 "POLICY_NOT_FOUND" "Policy not found."
  write_store_error policy_already_exists =
      policy_failure 409 "POLICY_ALREADY_EXISTS"
        "An active crypto policy already exists for this wallet."
  write_store_error forbidden =
      policy_failure 403 "FORBIDDEN" "Resource is not accessible for the scoped owner."
  write_store_error invalid_wallet_address =
      policy_failure 400 "INVALID_WALLET_ADDRESS" "wallet_address must be a normalized EVM address"
  write_store_error scan_id_required = invalid_request "scan_id is required"
  write_store_error payload_sha256_required = invalid_request "payload_sha256 is required"
  write_store_error payload_required = invalid_request "payload is required"
  write_store_error invalid_chain_id = invalid_request "chain_id must be >= 1"
  write_store_error owner_required = invalid_request "X-User-Id header is required"
  write_store_error (store e) = persistence_unavailable

module _ (uuid_text : Uuid → String) (nano_text : ℕ → String) where
  abbrev if_set : String → String → PolicyFields
  if_set name value = if str_eq value "" then [] else (name, text value) ∷ []

  abbrev if_given : String → Option ℕ → PolicyFields
  if_given name none = []
  if_given name (some t) = (name, text (nano_text t)) ∷ []

  unfoldable pub policy_row_json : PolicyRecord → PolicyFields
  policy_row_json rec =
      (("id", text (uuid_text rec.id))
        ∷ ("user_id", text rec.user_id)
        ∷ ("scan_id", text (uuid_text rec.scan_id))
        ∷ ("wallet_address", text rec.wallet_address)
        ∷ ("chain_id", number rec.chain_id)
        ∷ ("payload", payload rec.payload)
        ∷ ("payload_sha256", text rec.payload_sha256)
        ∷ ("status", text rec.status)
        ∷ ("persisted_at", text (nano_text rec.persisted_at))
        ∷ ("created_at", text (nano_text rec.created_at))
        ∷ ("updated_at", text (nano_text rec.updated_at))
        ∷ [])
      ++ if_set "tenant_id" rec.tenant_id
      ++ if_set "signed_message_hash" rec.signed_message_hash
      ++ if_set "ownership_status" rec.ownership_status
      ++ if_set "wallet_control_method" rec.wallet_control_method
      ++ if_given "wallet_control_verified_at" rec.wallet_control_verified_at
      ++ if_given "challenge_issued_at" rec.challenge_issued_at
      ++ if_given "challenge_expires_at" rec.challenge_expires_at

  unfoldable pub create_policy_response_json : CreatePolicyResult → PolicyFields
  create_policy_response_json result =
      ("policy_id", text (uuid_text result.policy_id))
      ∷ ("scan_id", text (uuid_text result.scan_id))
      ∷ ("wallet_address", text result.wallet_address)
      ∷ ("chain_id", number result.chain_id)
      ∷ ("payload_sha256", text result.payload_sha256)
      ∷ ("status", text "persisted")
      ∷ ("ownership_status", text "verified")
      ∷ ("wallet_control_method", text "eoa_signature")
      ∷ ("persisted_at", text (nano_text result.persisted_at))
      ∷ []
