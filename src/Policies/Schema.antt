-- ===== src/Policies/Schema.antt =====
-- internal/cpddl/migrate.go on Postgres, where the service runs; the branches for other databases
-- are left out. AutoMigrate is gorm's and a parameter. The mutex of the package lets one migration
-- run at a time, as here.
pub mod Indexes
pub mod Kept
pub mod Migrated
use cafe_persistence.Prelude.{
  String, Bool, true, false, not, ◌&&◌, ◌||◌, Option, none, some, List, [], ◌∷◌, ◌++◌,
  if◌then◌else◌, str_eq, Try, ok, err, Exec, pure, raise, ◌>>=◌, ◌>>◌,
}
use cafe_persistence.Db.{Error, unavailable, duplicate_key, Moment, Database, statement}
use cafe_persistence.Db.Table.{first, exists}
use cafe_persistence.Policies.{CryptoPolicyEntity, is_active}

-- The table crypto_policies: its rows, and whether it has the columns that tell drafts from
-- policies.
pub record PolicyTable : Type 0 where
  pub draft_id : Bool
  pub payload_sha256 : Bool
  pub rows : List CryptoPolicyEntity

-- An index of crypto_policies; `active_only` is WHERE status = 'persisted' AND deleted_at IS NULL.
pub record Index : Type 0 where
  pub name : String
  pub unique : Bool
  pub columns : List String
  pub active_only : Bool

-- the tables, and the indexes of crypto_policies
pub record Schema : Type 0 where
  pub draft_persist_state : Bool
  pub crypto_policy_drafts : Bool
  pub crypto_policies : Option PolicyTable
  pub indexes : List Index

-- the statements of cpDropLegacyDDL and cpIndexDDL
pub data Ddl : Type 0 where
  drop_draft_persist_state drop_crypto_policy_drafts : Ddl
  drop_index : String → Ddl
  create_index : Index → Ddl

unfoldable pub cp_drop_legacy_ddl : List Ddl
cp_drop_legacy_ddl = drop_draft_persist_state ∷ drop_crypto_policy_drafts ∷ []

unfoldable pub cp_index_ddl : List Ddl
cp_index_ddl =
    drop_index "idx_crypto_policies_user_wallet_persisted"
    ∷ create_index (record {
      name = "idx_crypto_policies_user_scan_persisted";
      unique = false;
      columns = "user_id" ∷ "scan_id" ∷ [];
      active_only = true;
    })
    ∷ create_index (record {
      name = "uidx_crypto_policies_user_wallet_active";
      unique = true;
      columns = "user_id" ∷ "wallet_address" ∷ [];
      active_only = true;
    })
    ∷ create_index (record {
      name = "idx_crypto_policies_user_id";
      unique = false;
      columns = "user_id" ∷ "id" ∷ [];
      active_only = false;
    })
    ∷ []

abbrev pub named : String → Index → Bool
named name x = str_eq x.name name

unfoldable pub without_index : String → List Index → List Index
without_index name [] = []
without_index name (x ∷ xs) =
    let rest = without_index name xs in if named name x then rest else x ∷ rest

-- Are there two active policies of one user on one wallet?
abbrev has_twins : List CryptoPolicyEntity → Bool
has_twins [] = false
has_twins (p ∷ ps) =
    is_active p
      && exists
          (λ q.
            is_active q && (str_eq q.user_id p.user_id && str_eq q.wallet_address p.wallet_address))
          ps
    || has_twins ps

-- A unique index is refused where rows clash; the only one here is on the wallets of a user.
abbrev pub refused : Bool → Option PolicyTable → Option Error
refused unique none = some unavailable
refused unique (some table) = if unique && has_twins table.rows then some duplicate_key else none

abbrev pub add_index : Index → Schema → Option Error → Try Error (Unit {0}) × Schema
add_index x t (some e) = (err e, t)
add_index x t none = (ok tt, record t { indexes = x ∷ t.indexes })

-- IF NOT EXISTS looks at the name alone
abbrev pub create : Index → Schema → Option Index → Try Error (Unit {0}) × Schema
create x t (some there) = (ok tt, t)
create x t none = add_index x t (refused x.unique t.crypto_policies)

-- what a statement does
unfoldable pub effect : Ddl → Schema → Try Error (Unit {0}) × Schema
effect drop_draft_persist_state t = (ok tt, record t { draft_persist_state = false })
effect drop_crypto_policy_drafts t = (ok tt, record t { crypto_policy_drafts = false })
effect (drop_index name) t = (ok tt, record t { indexes = without_index name t.indexes })
effect (create_index x) t = create x t (first (named x.name) t.indexes)

abbrev pub exists_table : Option PolicyTable → Bool
exists_table none = false
exists_table (some table) = true

-- Has the table the column?
abbrev pub column : (PolicyTable → Bool) → Option PolicyTable → Bool
column has none = false
column has (some table) = has table

abbrev without_draft_id : Option PolicyTable → Option PolicyTable
without_draft_id none = none
without_draft_id (some table) = some (record table { draft_id = false })

module _ (db : Database Schema)
    (auto_migrate : Moment → Schema → Try Error (Unit {0}) × Schema) where
  abbrev Step : Type 0
  Step = Exec db.Conn Error (Unit {0})

  -- a query that only reads
  unfoldable pub query : (Schema → Bool) → Exec db.Conn Error Bool
  query holds = statement db (λ m t. (ok (holds t), t))

  unfoldable pub exec_all : List Ddl → Step
  exec_all [] = pure tt
  exec_all (q ∷ qs) = do statement db (λ m t. effect q t); exec_all qs

  unfoldable pub table_exists : Exec db.Conn Error Bool
  unfolding query
  table_exists = query (λ t. exists_table t.crypto_policies)

  unfoldable pub column_exists : (PolicyTable → Bool) → Exec db.Conn Error Bool
  unfolding query
  column_exists has = query (λ t. column has t.crypto_policies)

  -- DROP TABLE, with the indexes of the table
  abbrev drop_crypto_policies : Step
  drop_crypto_policies =
      statement db (λ m t. (ok tt, record t { crypto_policies = none; indexes = [] }))

  unfoldable pub reset_crypto_policies_if_legacy : Step
  reset_crypto_policies_if_legacy = do
    present ← table_exists
    if not present then pure tt else (do
      has_draft_id ← column_exists (λ p. p.draft_id)
      has_payload_sha ← column_exists (λ p. p.payload_sha256)
      if not has_draft_id && has_payload_sha then pure tt else drop_crypto_policies)

  unfoldable pub drop_legacy_draft_id_column : Step
  drop_legacy_draft_id_column = do
    has ← column_exists (λ p. p.draft_id)
    if not has
        then pure tt
        else (statement db
            (λ m t. (ok tt, record t { crypto_policies = without_draft_id t.crypto_policies })))

  unfoldable pub migrate_cp_schema : Step
  migrate_cp_schema = do
    exec_all cp_drop_legacy_ddl
    reset_crypto_policies_if_legacy
    statement db auto_migrate
    drop_legacy_draft_id_column
    exec_all cp_index_ddl
