-- ===== src/Policies/Roundtrip.antt =====
-- CreatePolicy and then GetPolicy, while nobody else writes to the table.
use cafe_persistence.Prelude.{
  String, ◌≡◌, refl, sym, ◌∙◌, ap, Bool, true, false, not, ◌&&◌, Option, none, some, List, [], ◌∷◌,
  ◌++◌, if◌then◌else◌, ◌==◌, ==-refl, str_eq, is_non_positive, Try, ok, err, Bool-cases,
  Option-cases, inl, inr,
}
use cafe_persistence.Domain.{Uuid, nil_uuid}
use cafe_persistence.Db.{Database, IsSerial, statement}
use cafe_persistence.Db.Table.{first, exists, first-append_none}
use cafe_persistence.ScanApi.Text.{trim_space}
use cafe_persistence.Policies.{
  JsonMap, CryptoPolicyEntity, PolicyRecord, CreatePolicyInput, CreatePolicyResult, OwnerScope,
  PolicyError, policy_not_found, PolicyTexts, validate_owner_scope, same_owner, policy_from_entity,
  owned_active, has_id, clashes, insert_policy,
}
use cafe_persistence.Policies.Payload.{has_field, NoSecrets, stripped}
use cafe_persistence.Policies.Wallets.{normalize_wallet_target_address}
use cafe_persistence.Policies.Store.{
  require, create_policy, get_policy, normalize_policy_payload, new_policy, in_columns, result_of,
  is_nil_map,
}

not_answered :
    {A B : Type 0} {e : PolicyError} {a : A} → ◌≡◌ {A = Try PolicyError A} (err e) (ok a) → B
not_answered h = cc

true_not_false : {A : Type 0} → true ≡ false → A
true_not_false h = cc

same_answer : {A : Type 0} {a a' : A} → ◌≡◌ {A = Try PolicyError A} (ok a) (ok a') → a ≡ a'
same_answer h = cc

and_true : (b : Bool) → b && true ≡ b
and_true true = refl
and_true false = refl

and_false : (b : Bool) → b && false ≡ false
and_false true = refl
and_false false = refl

none-has_id :
    (scope : OwnerScope) (p : CryptoPolicyEntity) (rows : List CryptoPolicyEntity)
    → exists (clashes p) rows ≡ false
    → first (λ ent. owned_active scope ent && has_id p.id ent) rows ≡ none
unfolding first exists
none-has_id scope p [] h = refl
none-has_id scope p (r ∷ rs) h = elim (Bool-cases (r.id == p.id)) [
  | inl same ↦ true_not_false (rw same at h)
  | inr other ↦ elim (Bool-cases (clashes p r)) [
    | inl clash ↦ true_not_false (rw clash at h)
    | inr free ↦
        rw (other, and_false (owned_active scope r)) (none-has_id scope p rs (rw free at h))
  ]
]

-- Behind rows without its id, a row is found by the id exactly in the scope of its owner.
first-appended :
    (scope : OwnerScope) (p : CryptoPolicyEntity) (rows : List CryptoPolicyEntity)
    → exists (clashes p) rows ≡ false
    → first (λ ent. owned_active scope ent && has_id p.id ent) (rows ++ p ∷ [])
      ≡ (if owned_active scope p then some p else none)
first-appended scope p rows h =
    first-append_none (λ ent. owned_active scope ent && has_id p.id ent) rows p
      (none-has_id scope p rows h)
    ∙ rw (==-refl p.id, and_true (owned_active scope p)) refl

-- what CreatePolicy answers of a stored policy
abbrev pub answer_for : PolicyRecord → CreatePolicyResult
answer_for p = record {
  policy_id = p.id;
  scan_id = p.scan_id;
  wallet_address = p.wallet_address;
  chain_id = p.chain_id;
  payload_sha256 = p.payload_sha256;
  persisted_at = p.persisted_at;
}

-- the active policy of the id in the scope of an owner
abbrev pub policy_at : OwnerScope → Uuid → List CryptoPolicyEntity → Option CryptoPolicyEntity
policy_at reader id rows = first (λ ent. owned_active reader ent && has_id id ent) rows

-- A JSON column gives back no field that was not stored.
pub record KeepsOut (texts : PolicyTexts) : Type 0 where
  pub keeps :
      (key : String) (m : JsonMap)
      → has_field key m ≡ false
      → has_field key (texts.column m) ≡ false

module _ (texts : PolicyTexts) (db : Database (List CryptoPolicyEntity)) (serial : IsSerial db)
    (scope : OwnerScope) (in_ : CreatePolicyInput) (c : db.Conn) where
  abbrev made_row : String → CryptoPolicyEntity
  made_row wallet = new_policy texts scope in_ wallet (db.clock c)

  abbrev row : String → CryptoPolicyEntity
  row wallet = in_columns texts (made_row wallet)

  -- What a successful CreatePolicy has checked and written.
  pub record Created (r : CreatePolicyResult) : Type 0 where
    pub wallet : String
    pub named : validate_owner_scope scope ≡ true
    pub normal : normalize_wallet_target_address texts.lower in_.wallet_address ≡ some wallet
    pub free : exists (clashes (row wallet)) (db.seen c) ≡ false
    pub result : r ≡ result_of texts (made_row wallet)
    pub stored : db.seen (create_policy texts db scope in_ c).1 ≡ db.seen c ++ row wallet ∷ []

  create_policy-Created :
      (r : CreatePolicyResult) → (create_policy texts db scope in_ c).0 ≡ ok r → Created r
  unfolding create_policy statement insert_policy require
  create_policy-Created r h = elim (Bool-cases (validate_owner_scope scope)) [
    | inr a ↦ not_answered (rw a at h)
    | inl a ↦ elim (Bool-cases (not (in_.scan_id == nil_uuid))) [
      | inr b ↦ not_answered (rw (a, b) at h)
      | inl b ↦ elim (Bool-cases (not (str_eq (trim_space in_.payload_sha256) ""))) [
        | inr d ↦ not_answered (rw (a, b, d) at h)
        | inl d ↦ elim (Bool-cases (not (is_nil_map texts db in_.payload))) [
          | inr e ↦ not_answered (rw (a, b, d, e) at h)
          | inl e ↦ elim (Bool-cases (not (is_non_positive in_.chain_id))) [
            | inr f ↦ not_answered (rw (a, b, d, e, f) at h)
            | inl f ↦
                elim (Option-cases
                  (normalize_wallet_target_address texts.lower in_.wallet_address)) [
                    | inl g ↦ not_answered (rw (a, b, d, e, f, g) at h)
                    | inr w ↦ elim (Bool-cases (db.fails c)) [
                      | inl down ↦ not_answered (rw (a, b, d, e, f, w.1, down) at h)
                      | inr up ↦ elim (Bool-cases (exists (clashes (row w.0)) (db.seen c))) [
                        | inl taken ↦ not_answered (rw (a, b, d, e, f, w.1, up, taken) at h)
                        | inr free ↦ record {
                          wallet = w.0;
                          named = a;
                          normal = w.1;
                          free = free;
                          result = sym (same_answer (rw (a, b, d, e, f, w.1, up, free) at h));
                          stored = rw (a, b, d, e, f, w.1, up, free) (serial.seen-next c _);
                        }
                      ]
                    ]
                  ]
          ]
        ]
      ]
    ]
  ]

  module _ (r : CreatePolicyResult) (created : (create_policy texts db scope in_ c).0 ≡ ok r)
      (c' : db.Conn)
      (untouched : (reader : OwnerScope)
        → policy_at reader r.policy_id (db.seen c')
          ≡ policy_at reader r.policy_id (db.seen (create_policy texts db scope in_ c).1))
      (up : db.fails c' ≡ false) where
    found_in :
        (reader : OwnerScope)
        → validate_owner_scope reader ≡ true
        → (wallet : String) → exists (clashes (row wallet)) (db.seen c) ≡ false
        → policy_at reader (row wallet).id (db.seen c')
          ≡ policy_at reader (row wallet).id (db.seen c ++ row wallet ∷ [])
        → (get_policy texts db reader (row wallet).id c').0 ≡ (
            if same_owner reader (row wallet)
            then ok (policy_from_entity (row wallet))
            else err policy_not_found)
    unfolding get_policy statement new_policy require
    found_in reader named wallet free seen = elim (Bool-cases (same_owner reader (row wallet))) [
      | inl mine ↦
          rw (named, up, seen ∙ first-appended reader (row wallet) (db.seen c) free, mine) refl
      | inr other ↦
          rw (named, up, seen ∙ first-appended reader (row wallet) (db.seen c) free, other) refl
    ]

    new_policy-NoSecrets : KeepsOut texts → (wallet : String) → NoSecrets (row wallet).payload
    unfolding new_policy normalize_policy_payload
    new_policy-NoSecrets out wallet =
        let secrets = stripped _ in
        (
          out.keeps _ _ secrets.0,
          out.keeps _ _ secrets.1,
          out.keeps _ _ secrets.2,
          out.keeps _ _ secrets.3,
        )

    -- A policy that CreatePolicy has answered is stored for its owner under the normalized wallet
    -- address and what the answer says, its time as Postgres keeps it, and no field of a signature,
    -- no hash and no draft id is in its payload, where a JSON column gets no fields of its own. As
    -- long as the row of its id is not written, GetPolicy of it, where Postgres does not fail,
    -- gives it to the same user of the same tenant, and answers anybody else that there is no such
    -- policy.
    pub get_policy-create_policy :
        KeepsOut texts
        → (reader : OwnerScope) → validate_owner_scope reader ≡ true
        → (stored : PolicyRecord) × (r
            ≡ record (answer_for stored) { persisted_at = r.persisted_at })
          × (stored.persisted_at ≡ texts.stored_time r.persisted_at)
          × (normalize_wallet_target_address texts.lower in_.wallet_address
              ≡ some stored.wallet_address)
          × (stored.user_id ≡ scope.user_id)
          × (stored.tenant_id ≡ scope.tenant_id)
          × NoSecrets stored.payload
          × ((get_policy texts db reader r.policy_id c').0 ≡ (
              if str_eq scope.user_id reader.user_id && str_eq scope.tenant_id reader.tenant_id
              then ok stored
              else err policy_not_found))
    unfolding new_policy policy_from_entity
    get_policy-create_policy out reader named =
        let made = create_policy-Created r created in
        let at_id : policy_at reader (row made.wallet).id (db.seen c')
            ≡ policy_at reader (row made.wallet).id (db.seen c ++ row made.wallet ∷ []) =
          ap (λ (q : CreatePolicyResult). policy_at reader q.policy_id (db.seen c'))
            (sym made.result)
          ∙ untouched reader
          ∙ (λ t. policy_at reader (made.result t).policy_id (made.stored t)) in
        (
          policy_from_entity (row made.wallet),
          made.result
              ∙ ap
                  (λ t. record (answer_for (policy_from_entity (row made.wallet))) {
                    persisted_at = t;
                  })
                  (ap (λ (q : CreatePolicyResult). q.persisted_at) (sym made.result)),
          ap (λ (q : CreatePolicyResult). texts.stored_time q.persisted_at) (sym made.result),
          made.normal,
          refl,
          refl,
          new_policy-NoSecrets out made.wallet,
          ap (λ (q : CreatePolicyResult). (get_policy texts db reader q.policy_id c').0) made.result
              ∙ found_in reader named made.wallet made.free at_id,
        )
