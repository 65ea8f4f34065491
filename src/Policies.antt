-- ===== src/Policies.antt =====
-- internal/cpstore and internal/domain/crypto_policy.go: the crypto policies of an owner, in
-- Postgres. The unique index of internal/cpddl/migrate.go is in the INSERT. A nil map is `none`, a
-- JSON value that the code does not make is kept as its text, the zero time is 0. The texts of a
-- UUID and of a time, what Postgres keeps of a time and of a JSON column, and the table of
-- lower-case characters, are parameters.
pub mod Schema
pub mod Wallets
pub mod Payload
pub mod Store
pub mod Roundtrip
pub mod OneActive
pub mod Calls
pub mod Http
pub mod Routes
use Prim.Native.Char.{Char}
use cafe_persistence.Prelude.{
  ℕ, String, Bool, true, false, not, ◌&&◌, ◌||◌, Option, none, some, List, [], ◌∷◌, ◌++◌, map,
  if◌then◌else◌, ltb, leb, ◌==◌, str_eq, ℤ, is_non_positive, pos_part, Try, ok, err, Exec, pure,
  raise, on_err, ◌>>=◌, ◌>>◌,
}
use cafe_persistence.Domain.{Uuid, nil_uuid}
use cafe_persistence.Db.{Error, duplicate_key, Moment, Database, statement}
use cafe_persistence.Db.Table.{first, count, update, exists}
use cafe_persistence.Db.Ordered.{select, skip, take}
use cafe_persistence.Tables.{Statement, is_null}
use cafe_persistence.ScanApi.Text.{trim_space}

pub data Any : Type 0 where
  text : String → Any
  number : ℤ → Any
  raw : String → Any

-- map[string]any, each key once
abbrev pub JsonMap : Type 0
JsonMap = List (String × Any)

-- delete(m, key)
unfoldable pub without : String → JsonMap → JsonMap
without key [] = []
without key ((k, v) ∷ m) = let rest = without key m in if str_eq k key then rest else (k, v) ∷ rest

-- m[key] = v
abbrev pub with_field : String → Any → JsonMap → JsonMap
with_field key v m = (key, v) ∷ without key m

abbrev pub status_persisted : String
status_persisted = "persisted"

pub record CryptoPolicyEntity : Type 0 where
  pub id : Uuid
  pub user_id : String
  pub tenant_id : String
  pub scan_id : Uuid
  pub wallet_address : String
  pub chain_id : ℤ
  pub payload : JsonMap
  pub payload_sha256 : String
  pub signed_message_hash : String
  pub ownership_status : String
  pub wallet_control_method : String
  pub wallet_control_verified_at : Option ℕ
  pub challenge_issued_at : Option ℕ
  pub challenge_expires_at : Option ℕ
  pub status : String
  pub persisted_at : ℕ
  pub created_at : ℕ
  pub updated_at : ℕ
  pub deleted_at : Option ℕ

pub record PolicyRecord : Type 0 where
  pub id : Uuid
  pub user_id : String
  pub tenant_id : String
  pub scan_id : Uuid
  pub wallet_address : String
  pub chain_id : ℤ
  pub payload : JsonMap
  pub payload_sha256 : String
  pub signed_message_hash : String
  pub ownership_status : String
  pub wallet_control_method : String
  pub wallet_control_verified_at : Option ℕ
  pub challenge_issued_at : Option ℕ
  pub challenge_expires_at : Option ℕ
  pub status : String
  pub persisted_at : ℕ
  pub created_at : ℕ
  pub updated_at : ℕ

pub record CreatePolicyInput : Type 0 where
  pub scan_id : Uuid
  pub wallet_address : String
  pub chain_id : ℤ
  pub payload : Option JsonMap
  pub payload_sha256 : String
  pub signed_message_hash : String
  pub wallet_control_method : String
  pub wallet_control_verified_at : ℕ
  pub challenge_issued_at : Option ℕ
  pub challenge_expires_at : Option ℕ

pub record CreatePolicyResult : Type 0 where
  pub policy_id : Uuid
  pub scan_id : Uuid
  pub wallet_address : String
  pub chain_id : ℤ
  pub payload_sha256 : String
  pub persisted_at : ℕ

pub record ListPoliciesResult : Type 0 where
  pub items : List PolicyRecord
  pub total : ℕ
  pub limit : ℕ
  pub offset : ℕ

pub record OwnerScope : Type 0 where
  pub user_id : String
  pub tenant_id : String

-- errors.go, and any other error of the database
pub data PolicyError : Type 0 where
  owner_required policy_not_found policy_already_exists forbidden invalid_wallet_address :
      PolicyError
  scan_id_required payload_sha256_required payload_required invalid_chain_id : PolicyError
  store : Error → PolicyError

pub record PolicyTexts : Type 0 where
  pub uuid_text : Uuid → String
  pub time_text : ℕ → String
  pub stored_time : ℕ → ℕ
  pub column : JsonMap → JsonMap
  pub lower : Char → Char

abbrev pub validate_owner_scope : OwnerScope → Bool
validate_owner_scope scope = not (str_eq scope.user_id "")

abbrev pub same_owner : OwnerScope → CryptoPolicyEntity → Bool
same_owner scope ent = str_eq ent.user_id scope.user_id && str_eq ent.tenant_id scope.tenant_id

abbrev pub or_empty : Option JsonMap → JsonMap
or_empty none = []
or_empty (some m) = m

abbrev pub clone_time_utc : Option ℕ → Option ℕ
clone_time_utc none = none
clone_time_utc (some t) = if t == 0 then none else some t

unfoldable pub policy_from_entity : CryptoPolicyEntity → PolicyRecord
policy_from_entity ent = record {
  id = ent.id;
  user_id = ent.user_id;
  tenant_id = ent.tenant_id;
  scan_id = ent.scan_id;
  wallet_address = ent.wallet_address;
  chain_id = ent.chain_id;
  payload = ent.payload;
  payload_sha256 = ent.payload_sha256;
  signed_message_hash = ent.signed_message_hash;
  ownership_status = ent.ownership_status;
  wallet_control_method = ent.wallet_control_method;
  wallet_control_verified_at = ent.wallet_control_verified_at;
  challenge_issued_at = ent.challenge_issued_at;
  challenge_expires_at = ent.challenge_expires_at;
  status = ent.status;
  persisted_at = ent.persisted_at;
  created_at = ent.created_at;
  updated_at = ent.updated_at;
}

-- deleted_at IS NULL AND status = 'persisted'
abbrev pub is_active : CryptoPolicyEntity → Bool
is_active ent = is_null ent.deleted_at && str_eq ent.status status_persisted

abbrev pub owned_active : OwnerScope → CryptoPolicyEntity → Bool
owned_active scope ent = is_active ent && same_owner scope ent

abbrev pub has_id : Uuid → CryptoPolicyEntity → Bool
has_id policy_id ent = ent.id == policy_id

-- the primary key, and uidx_crypto_policies_user_wallet_active
abbrev pub clashes : CryptoPolicyEntity → CryptoPolicyEntity → Bool
clashes new ent =
    ent.id == new.id
    || is_active ent
      && (str_eq ent.user_id new.user_id && str_eq ent.wallet_address new.wallet_address)

unfoldable pub insert_policy :
    CryptoPolicyEntity → List CryptoPolicyEntity → Try Error (Unit {0}) × List CryptoPolicyEntity
insert_policy new rows =
    if exists (clashes new) rows then (err duplicate_key, rows) else (ok tt, rows ++ new ∷ [])

-- ORDER BY persisted_at DESC, id ASC
abbrev goes_before : CryptoPolicyEntity → CryptoPolicyEntity → Bool
goes_before a b =
    ltb b.persisted_at a.persisted_at || a.persisted_at == b.persisted_at && leb a.id b.id

abbrev insert_ordered : CryptoPolicyEntity → List CryptoPolicyEntity → List CryptoPolicyEntity
insert_ordered r [] = r ∷ []
insert_ordered r (s ∷ ss) =
    let rest = insert_ordered r ss in if goes_before r s then r ∷ s ∷ ss else s ∷ rest

abbrev pub ordered_policies : List CryptoPolicyEntity → List CryptoPolicyEntity
ordered_policies [] = []
ordered_policies (r ∷ rs) = insert_ordered r (ordered_policies rs)

-- isUniqueViolation
abbrev pub store_error : Error → PolicyError
store_error Error.duplicate_key = policy_already_exists
store_error e = store e
