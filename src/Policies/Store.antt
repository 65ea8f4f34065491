-- ===== src/Policies/Store.antt =====
-- The methods of PostgresStore in internal/cpstore/store.go, and NormalizePolicyPayload.
use cafe_persistence.Prelude.{
  ℕ, String, Bool, true, false, not, ◌&&◌, Option, none, some, List, map, if◌then◌else◌, ltb, ◌==◌,
  str_eq, ℤ, is_non_positive, pos_part, Try, ok, err, Exec, pure, raise, on_err, ◌>>=◌, ◌>>◌,
}
use cafe_persistence.Domain.{Uuid, nil_uuid}
use cafe_persistence.Db.{Error, Moment, Database, statement}
use cafe_persistence.Db.Table.{first, count, update}
use cafe_persistence.Db.Ordered.{select, skip, take}
use cafe_persistence.ScanApi.Text.{trim_space}
use cafe_persistence.Policies.{
  text, number, JsonMap, without, with_field, status_persisted, CryptoPolicyEntity, PolicyRecord,
  CreatePolicyInput, CreatePolicyResult, ListPoliciesResult, OwnerScope, PolicyError,
  owner_required, policy_not_found, forbidden, invalid_wallet_address, scan_id_required,
  payload_sha256_required, payload_required, invalid_chain_id, PolicyTexts, validate_owner_scope,
  same_owner, or_empty, clone_time_utc, policy_from_entity, owned_active, has_id, insert_policy,
  ordered_policies, store_error,
}
use cafe_persistence.Policies.Wallets.{normalize_wallet_target_address}

module _ (texts : PolicyTexts) where
  unfoldable pub normalize_policy_payload : Option JsonMap → String → String → ℤ → ℕ → JsonMap
  normalize_policy_payload payload scan_id wallet chain_id verified_at =
      let out = with_field "scan_id" (text scan_id) (or_empty payload) in
      let out = with_field "wallet_address" (text wallet) out in
      let out = with_field "chain_id" (number chain_id) out in
      let out = with_field "ownership_status" (text "verified") out in
      let out = with_field "wallet_control_method" (text "eoa_signature") out in
      let out = with_field "wallet_control_verified_at" (text (texts.time_text verified_at)) out in
      let out = with_field "persisted_at" (text (texts.time_text verified_at)) out in
      without "draft_id"
        (without "payload_sha256" (without "signature" (without "signed_message" out)))

  abbrev pub verified_time : ℕ → ℕ → ℕ
  verified_time now t = if t == 0 then now else t

  abbrev pub method_of : String → String
  method_of raw =
      let method = trim_space raw in if str_eq method "" then "eoa_signature" else method

  -- the row of CreatePolicy, written at `m`
  unfoldable pub new_policy : OwnerScope → CreatePolicyInput → String → Moment → CryptoPolicyEntity
  unfolding normalize_policy_payload
  new_policy scope in_ wallet m =
      let verified_at = verified_time m.now in_.wallet_control_verified_at in
      record {
        id = m.fresh;
        user_id = scope.user_id;
        tenant_id = scope.tenant_id;
        scan_id = in_.scan_id;
        wallet_address = wallet;
        chain_id = in_.chain_id;
        payload =
            normalize_policy_payload in_.payload (texts.uuid_text in_.scan_id) wallet in_.chain_id
              verified_at;
        payload_sha256 = trim_space in_.payload_sha256;
        signed_message_hash = trim_space in_.signed_message_hash;
        ownership_status = "verified";
        wallet_control_method = method_of in_.wallet_control_method;
        wallet_control_verified_at = some verified_at;
        challenge_issued_at = clone_time_utc in_.challenge_issued_at;
        challenge_expires_at = clone_time_utc in_.challenge_expires_at;
        status = status_persisted;
        persisted_at = verified_at;
        created_at = verified_at;
        updated_at = verified_at;
        deleted_at = none;
      }

  abbrev pub result_of : CryptoPolicyEntity → CreatePolicyResult
  result_of p = record {
    policy_id = p.id;
    scan_id = p.scan_id;
    wallet_address = p.wallet_address;
    chain_id = p.chain_id;
    payload_sha256 = p.payload_sha256;
    persisted_at = p.persisted_at;
  }

  abbrev pub answered_result :
      CryptoPolicyEntity → Try Error (Unit {0}) → Try Error CreatePolicyResult
  answered_result p (ok u) = ok (result_of p)
  answered_result p (err e) = err e

  abbrev stored_or_null : Option ℕ → Option ℕ
  stored_or_null none = none
  stored_or_null (some t) = some (texts.stored_time t)

  -- what the columns of the row keep
  abbrev pub in_columns : CryptoPolicyEntity → CryptoPolicyEntity
  in_columns p = record p {
    payload = texts.column p.payload;
    wallet_control_verified_at = stored_or_null p.wallet_control_verified_at;
    challenge_issued_at = stored_or_null p.challenge_issued_at;
    challenge_expires_at = stored_or_null p.challenge_expires_at;
    persisted_at = texts.stored_time p.persisted_at;
    created_at = texts.stored_time p.created_at;
    updated_at = texts.stored_time p.updated_at;
  }

  abbrev pub create_row :
      OwnerScope
      → CreatePolicyInput
      → String
      → Moment
      → List CryptoPolicyEntity
      → Try Error CreatePolicyResult × List CryptoPolicyEntity
  create_row scope in_ wallet m rows =
      let p = new_policy scope in_ wallet m in
      let (r, rows') = insert_policy (in_columns p) rows in (answered_result p r, rows')

  module _ (db : Database (List CryptoPolicyEntity)) where
    unfoldable pub require : Bool → PolicyError → Exec db.Conn PolicyError (Unit {0})
    require holds e = if holds then pure tt else raise e

    abbrev pub of_wallet : Option String → Exec db.Conn PolicyError String
    of_wallet none = raise invalid_wallet_address
    of_wallet (some wallet) = pure wallet

    abbrev pub is_nil_map : Option JsonMap → Bool
    is_nil_map none = true
    is_nil_map (some m) = false

    unfoldable pub create_policy :
        OwnerScope → CreatePolicyInput → Exec db.Conn PolicyError CreatePolicyResult
    create_policy scope in_ = do
      require (validate_owner_scope scope) owner_required
      require (not (in_.scan_id == nil_uuid)) scan_id_required
      require (not (str_eq (trim_space in_.payload_sha256) "")) payload_sha256_required
      require (not (is_nil_map in_.payload)) payload_required
      require (not (is_non_positive in_.chain_id)) invalid_chain_id
      wallet ← of_wallet (normalize_wallet_target_address texts.lower in_.wallet_address)
      on_err store_error (statement db (create_row scope in_ wallet))

    abbrev pub of_row : Option CryptoPolicyEntity → Exec db.Conn PolicyError PolicyRecord
    of_row none = raise policy_not_found
    of_row (some ent) = pure (policy_from_entity ent)

    unfoldable pub get_policy : OwnerScope → Uuid → Exec db.Conn PolicyError PolicyRecord
    get_policy scope policy_id = do
      require (validate_owner_scope scope) owner_required
      row ← on_err store_error (
          statement db (λ m rows.
            (ok (first (λ ent. owned_active scope ent && has_id policy_id ent) rows), rows)))
      of_row row

    -- Unscoped reads the deleted rows too.
    abbrev pub why_not_deleted :
        OwnerScope → Option CryptoPolicyEntity → Exec db.Conn PolicyError (Unit {0})
    why_not_deleted scope none = raise policy_not_found
    why_not_deleted scope (some other) =
        if same_owner scope other then raise policy_not_found else raise forbidden

    abbrev pub policy_deleted : ℕ → CryptoPolicyEntity → CryptoPolicyEntity
    policy_deleted now ent = record ent { deleted_at = some now }

    abbrev pub explain : OwnerScope → Uuid → Bool → Exec db.Conn PolicyError (Unit {0})
    explain scope policy_id true = pure tt
    explain scope policy_id false = do
      other ←
          on_err store_error (statement db (λ m rows. (ok (first (has_id policy_id) rows), rows)))
      why_not_deleted scope other

    unfoldable pub delete_policy : OwnerScope → Uuid → Exec db.Conn PolicyError (Unit {0})
    delete_policy scope policy_id = do
      require (validate_owner_scope scope) owner_required
      let mine : CryptoPolicyEntity → Bool = λ ent. owned_active scope ent && has_id policy_id ent
      affected ← on_err store_error (
          statement db
            (λ m rows. (ok (ltb 0 (count mine rows)), update mine (policy_deleted m.now) rows)))
      explain scope policy_id affected

    abbrev clamped_limit : ℤ → ℕ
    clamped_limit limit =
        let n = if is_non_positive limit then 20 else pos_part limit in if ltb 100 n then 100 else n

    unfoldable pub list_persisted_policies_for_scan :
        OwnerScope → Uuid → ℤ → ℤ → Exec db.Conn PolicyError ListPoliciesResult
    list_persisted_policies_for_scan scope scan_id limit offset = do
      require (validate_owner_scope scope) owner_required
      require (not (scan_id == nil_uuid)) scan_id_required
      let base : CryptoPolicyEntity → Bool = λ ent. owned_active scope ent && ent.scan_id == scan_id
      total ← on_err store_error (statement db (λ m rows. (ok (count base rows), rows)))
      page ← on_err store_error (
          statement db (λ m rows. (
            ok (
                take (clamped_limit limit)
                  (skip (pos_part offset) (ordered_policies (select base rows)))),
            rows,
          )))
      pure (record {
        items = map policy_from_entity page;
        total = total;
        limit = clamped_limit limit;
        offset = pos_part offset;
      })

    -- whether there is one, and how many
    unfoldable pub count_policies_by_wallet :
        OwnerScope → String → Exec db.Conn PolicyError (Bool × ℕ)
    count_policies_by_wallet scope wallet_address = do
      require (validate_owner_scope scope) owner_required
      needle ← of_wallet (normalize_wallet_target_address texts.lower wallet_address)
      n ← on_err store_error (
          statement db (λ m rows. (
            ok (count (λ ent. owned_active scope ent && str_eq ent.wallet_address needle) rows),
            rows,
          )))
      pure (ltb 0 n, n)

    unfoldable pub count_policies_by_scan : OwnerScope → Uuid → Exec db.Conn PolicyError (Bool × ℕ)
    count_policies_by_scan scope scan_id = do
      require (validate_owner_scope scope) owner_required
      require (not (scan_id == nil_uuid)) scan_id_required
      n ← on_err store_error (
          statement db (λ m rows.
            (ok (count (λ ent. owned_active scope ent && ent.scan_id == scan_id) rows), rows)))
      pure (ltb 0 n, n)
