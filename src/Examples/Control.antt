-- ===== src/Examples/Control.antt =====
-- The theorems on crypto policies at a concrete policy.
use cafe_persistence.Prelude.{
  ◌≡◌, refl, inl, sym, ap, ◌∙◌, true, false, Option, Try, ◌&&◌, none, some, arith, List, [], ◌∷◌,
  if◌then◌else◌, str_eq, pos, ok, err,
}
use cafe_persistence.Db.{Error, Moment, Database, statement}
use cafe_persistence.Db.Table.{first, count, exists}
use cafe_persistence.Db.Scripted.{Script, scripted, scripted-IsSerial, start}
use cafe_persistence.ScanApi.Text.{trim_space, to_lower}
use cafe_persistence.Policies.{
  text, CryptoPolicyEntity, PolicyRecord, CreatePolicyInput, CreatePolicyResult, OwnerScope,
  policy_not_found, PolicyTexts, insert_policy,
}
use cafe_persistence.Policies.Wallets.{normalize_wallet_target_address}
use cafe_persistence.Policies.Store.{require, create_policy, get_policy, new_policy}
use cafe_persistence.Policies.Schema.{
  PolicyTable, Schema, without_index, cp_drop_legacy_ddl, cp_index_ddl, effect, query, exec_all,
  table_exists, column_exists, reset_crypto_policies_if_legacy, drop_legacy_draft_id_column,
  migrate_cp_schema,
}
use cafe_persistence.Policies.Schema.Indexes.{IsMigrated}
use cafe_persistence.Policies.Schema.Migrated.{AutoCreates, migrate_cp_schema-IsMigrated}
use cafe_persistence.Policies.Schema.Kept.{AutoMigrates, migrate_cp_schema-keeps}
use cafe_persistence.Policies.Payload.{NoSecrets}
use cafe_persistence.Policies.OneActive.{OneActive}
use cafe_persistence.Policies.Calls.{Call, create, delete, calls, calls-OneActive}
use cafe_persistence.Policies.Roundtrip.{answer_for, KeepsOut, get_policy-create_policy}

abbrev db : Database (List CryptoPolicyEntity)
db = scripted (List CryptoPolicyEntity)

abbrev texts : PolicyTexts
texts = record {
  uuid_text = λ u. "u";
  time_text = λ t. "t";
  stored_time = λ t. t;
  column = λ m. m;
  lower = λ c. c;
}

abbrev owner : OwnerScope
owner = record { user_id = "seven"; tenant_id = "a" }

abbrev stranger : OwnerScope
stranger = record { user_id = "seven"; tenant_id = "b" }

abbrev input : CreatePolicyInput
input = record {
  scan_id = 11;
  wallet_address = " 0X00000000000000000000000000000000000000ab";
  chain_id = pos 1;
  payload = some (("signature", text "0x1") ∷ []);
  payload_sha256 = "5f";
  signed_message_hash = "6f";
  wallet_control_method = "";
  wallet_control_verified_at = 50;
  challenge_issued_at = none;
  challenge_expires_at = some 0;
}

abbrev answer : CreatePolicyResult
answer = record {
  policy_id = 100;
  scan_id = 11;
  wallet_address = "0x00000000000000000000000000000000000000ab";
  chain_id = pos 1;
  payload_sha256 = "5f";
  persisted_at = 50;
}

creates : (create_policy texts db owner input (start [] [])).0 ≡ ok answer
unfolding require create_policy statement insert_policy new_policy exists
    normalize_wallet_target_address trim_space to_lower
creates = refl

keeps_out : KeepsOut texts
keeps_out = record { keeps = λ key m h. h }

abbrev later : Script (List CryptoPolicyEntity)
later = (create_policy texts db owner input (start [] [])).1

get_policy-create_policy_example :
    (stored : PolicyRecord) × (answer ≡ record (answer_for stored) { persisted_at = 50 })
    × (stored.persisted_at ≡ 50)
    × (normalize_wallet_target_address texts.lower input.wallet_address
        ≡ some stored.wallet_address)
    × (stored.user_id ≡ "seven")
    × (stored.tenant_id ≡ "a")
    × NoSecrets stored.payload
    × ((get_policy texts db stranger 100 later).0
        ≡ (if str_eq "seven" "seven" && str_eq "a" "b" then ok stored else err policy_not_found))
unfolding require create_policy statement insert_policy new_policy exists
    normalize_wallet_target_address trim_space to_lower
get_policy-create_policy_example =
    get_policy-create_policy texts db (scripted-IsSerial (List CryptoPolicyEntity)) owner input
      (start [] []) answer creates later (λ reader. refl) refl keeps_out stranger refl

abbrev remake : List Call
remake = create owner input ∷ create stranger input ∷ delete owner 100 ∷ create owner input ∷ []

none_yet : OneActive []
unfolding count
none_yet = record { one = λ user_id wallet. omega arith; spelled = refl }

calls-OneActive_example : OneActive (calls texts db remake (start [] [])).tables
calls-OneActive_example =
    calls-OneActive texts db (scripted-IsSerial (List CryptoPolicyEntity)) remake (start [] [])
      none_yet

-- a table of today with a policy, and a migration whose fifth statement fails
abbrev policy_table : PolicyTable
policy_table = record {
  draft_id = false;
  payload_sha256 = true;
  rows = (create_policy texts db owner input (start [] [])).1.tables;
}

abbrev with_columns : Option PolicyTable → PolicyTable
with_columns none = record { draft_id = false; payload_sha256 = true; rows = [] }
with_columns (some p) = record p { payload_sha256 = true }

abbrev migrates : Moment → Schema → Try Error (Unit {0}) × Schema
migrates m t = (ok tt, record t { crypto_policies = some (with_columns t.crypto_policies) })

migrates-keeps : AutoMigrates migrates
migrates-keeps = record {
  keeps = λ m t p h hashed.
      ap (λ q. some (with_columns q)) h
      ∙ ap (λ b. some (record p { payload_sha256 = b })) (sym hashed);
}

abbrev schema : Schema
schema = record {
  draft_persist_state = true;
  crypto_policy_drafts = true;
  crypto_policies = some policy_table;
  indexes = [];
}

abbrev fifth_fails : Script Schema
fifth_fails = start schema (false ∷ false ∷ false ∷ false ∷ true ∷ [])

migrate_cp_schema-keeps_example :
    (migrate_cp_schema (scripted Schema) migrates fifth_fails).1.tables.crypto_policies
    ≡ some policy_table
migrate_cp_schema-keeps_example =
    migrate_cp_schema-keeps (scripted Schema) migrates migrates-keeps (scripted-IsSerial Schema)
      fifth_fails policy_table refl refl refl

migrates-creates : AutoCreates migrates
migrates-creates = record {
  state = λ m t. refl;
  drafts = λ m t. refl;
  hashed = λ m t e. columns_there t.crypto_policies;
  unique = λ m t. refl;
}
  where
    columns_there : (p : Option PolicyTable) → (with_columns p).payload_sha256 ≡ true
    columns_there none = refl
    columns_there (some p) = refl

-- a schema with drafts
abbrev legacy : Script Schema
legacy =
    start (record schema { crypto_policies = some (record policy_table { draft_id = true }) }) []

succeeds : (migrate_cp_schema (scripted Schema) migrates legacy).0 ≡ ok tt
unfolding migrate_cp_schema exec_all cp_drop_legacy_ddl cp_index_ddl effect without_index first
    exists reset_crypto_policies_if_legacy table_exists column_exists query
    drop_legacy_draft_id_column statement
succeeds = refl

migrate_cp_schema-IsMigrated_example :
    IsMigrated (migrate_cp_schema (scripted Schema) migrates legacy).1.tables
unfolding first
migrate_cp_schema-IsMigrated_example =
    migrate_cp_schema-IsMigrated (scripted Schema) migrates migrates-creates
      (scripted-IsSerial Schema) legacy (inl refl) succeeds
