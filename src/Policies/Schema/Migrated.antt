-- ===== src/Policies/Schema/Migrated.antt =====
-- What a migration of the policies that succeeds leaves.
use cafe_persistence.Prelude.{
  subst, sym, ◌⊎◌, inl, ◌≡◌, refl, arith, ◌∙◌, Bool, true, false, not, ◌&&◌, Option, none, some,
  List, [], ◌∷◌, Try, ok, Exec,
}
use cafe_persistence.Db.{Error, Moment, Database, IsSerial, statement}
use cafe_persistence.Policies.Schema.{
  PolicyTable, Schema, Ddl, cp_drop_legacy_ddl, cp_index_ddl, effect, column, without_draft_id,
  query, exec_all, table_exists, column_exists, reset_crypto_policies_if_legacy,
  drop_legacy_draft_id_column, migrate_cp_schema,
}
use cafe_persistence.Db.Table.{first}
use cafe_persistence.Db.Leaves.{Leaves, bind-Leaves, if-Leaves, done-Leaves, statement-Leaves}
use cafe_persistence.Policies.Schema.Indexes.{
  unique_index, found_index, IsNamed, IsMigrated, Undrafted, Hashed, Clean, drop_index-Clean,
  create_index-Clean, unique_index-IsMigrated, create_index-IsMigrated,
}

-- AutoMigrate leaves other tables alone, gives its table every column, and makes no index but those
-- of the tags of the row, of which the unique index is none.
pub record AutoCreates (auto_migrate : Moment → Schema → Try Error (Unit {0}) × Schema)
    : Type 0 where
  pub state :
      (m : Moment) (t : Schema) → (auto_migrate m t).1.draft_persist_state ≡ t.draft_persist_state
  pub drafts :
      (m : Moment) (t : Schema) → (auto_migrate m t).1.crypto_policy_drafts ≡ t.crypto_policy_drafts
  pub hashed :
      (m : Moment) (t : Schema)
      → (auto_migrate m t).0 ≡ ok tt
      → column (λ p. p.payload_sha256) (auto_migrate m t).1.crypto_policies ≡ true
  pub unique :
      (m : Moment) (t : Schema) → found_index (auto_migrate m t).1.indexes ≡ found_index t.indexes

ok_inj : {a b : Bool} → Path (Try Error Bool) (ok a) (ok b) → a ≡ b
ok_inj e = cc

false_of_not : (b : Bool) → not b ≡ true → b ≡ false
false_of_not b e = ground arith

module _ (db : Database Schema) (auto_migrate : Moment → Schema → Try Error (Unit {0}) × Schema)
    (serial : IsSerial db) (auto : AutoCreates auto_migrate) where
  abbrev Steps : (Schema → Type 0) → Exec db.Conn Error (Unit {0}) → (Schema → Type 0) → Type 0
  Steps Pre m Post = Leaves db Pre m (λ u. Post)

  exec-Steps :
      (Pre Mid Post : Schema → Type 0) (q : Ddl) (qs : List Ddl)
      → ((t : Schema) → Pre t → (effect q t).0 ≡ ok tt → Mid (effect q t).1)
      → Steps Mid (exec_all db auto_migrate qs) Post
      → Steps Pre (exec_all db auto_migrate (q ∷ qs)) Post
  unfolding exec_all
  exec-Steps Pre Mid Post q qs h k =
      bind-Leaves db Pre (λ u. Mid) (λ u. Post) _ _
        (statement-Leaves db Pre (λ u. Mid) _ serial λ m t a pre e. h t pre e) λ u. k

  none-Steps : (P : Schema → Type 0) → Steps P (exec_all db auto_migrate []) P
  unfolding exec_all
  none-Steps P = done-Leaves db P

  drafts-Steps :
      Steps (λ t. IsNamed t.indexes) (exec_all db auto_migrate cp_drop_legacy_ddl) Undrafted
  unfolding cp_drop_legacy_ddl effect
  drafts-Steps =
      exec-Steps _ (λ t. (t.draft_persist_state ≡ false) × IsNamed t.indexes) Undrafted _ _
        (λ t h e. (refl, h))
        (exec-Steps _ Undrafted Undrafted _ _
          (λ t h e. record { state = h.0; drafts = refl; index = h.1 }) (none-Steps Undrafted))

  query-Steps :
      (P : Schema → Type 0) (holds : Schema → Bool)
      → Leaves db P (query db auto_migrate holds) (λ a t. P t × (holds t ≡ a))
  unfolding query
  query-Steps P holds = statement-Leaves db P _ _ serial λ m t a h e. (h, ok_inj e)

  reset-Steps : Steps Undrafted (reset_crypto_policies_if_legacy db auto_migrate) Undrafted
  unfolding reset_crypto_policies_if_legacy table_exists column_exists query first
  reset-Steps =
      bind-Leaves db Undrafted (λ a. Undrafted) _ _ _ (read-Steps _)
        λ present.
          if-Leaves db (not present) Undrafted _ _ _ (λ e. done-Leaves db Undrafted)
            λ e.
              bind-Leaves db Undrafted (λ a. Undrafted) _ _ _ (read-Steps _)
                λ has_draft_id.
                  bind-Leaves db Undrafted (λ a. Undrafted) _ _ _ (read-Steps _)
                    λ has_payload_sha.
                      if-Leaves db (not has_draft_id && has_payload_sha) Undrafted _ _ _
                        (λ e. done-Leaves db Undrafted)
                        λ e. statement-Leaves db Undrafted _ _ serial λ m t a h e'. record {
                          state = h.state;
                          drafts = h.drafts;
                          index = inl refl;
                        }
    where
      read-Steps :
          (holds : Schema → Bool)
          → Leaves db Undrafted (statement db (λ m t. (ok (holds t), t))) (λ a. Undrafted)
      read-Steps holds = statement-Leaves db Undrafted _ _ serial λ m t a h e. h

  auto-Steps : Steps Undrafted (statement db auto_migrate) Hashed
  auto-Steps =
      statement-Leaves db Undrafted (λ u. Hashed) _ serial
        λ m t a h e. record {
          undrafted = record {
            state = auto.state m t ∙ h.state;
            drafts = auto.drafts m t ∙ h.drafts;
            index =
                subst (λ q. (q ≡ none) ⊎ (q ≡ some unique_index)) (sym (auto.unique m t)) h.index;
          };
          hashed = auto.hashed m t e;
        }

  dropped-Clean :
      (t : Schema)
      → Hashed t
      → Clean (record t { crypto_policies = without_draft_id t.crypto_policies })
  dropped-Clean t h = record {
    whole = record {
      undrafted = record {
        state = h.undrafted.state;
        drafts = h.undrafted.drafts;
        index = h.undrafted.index;
      };
      hashed = hashed_there t.crypto_policies ∙ h.hashed;
    };
    no_draft_id = gone t.crypto_policies;
  }
    where
      gone : (p : Option PolicyTable) → column (λ x. x.draft_id) (without_draft_id p) ≡ false
      gone none = refl
      gone (some p) = refl

      hashed_there :
          (p : Option PolicyTable)
          → column (λ x. x.payload_sha256) (without_draft_id p) ≡ column (λ x. x.payload_sha256) p
      hashed_there none = refl
      hashed_there (some p) = refl

  drop_column-Steps : Steps Hashed (drop_legacy_draft_id_column db auto_migrate) Clean
  unfolding drop_legacy_draft_id_column column_exists
  drop_column-Steps = bind-Leaves db Hashed _ _ _ _ (query-Steps Hashed _) λ has.
      if-Leaves db (not has) _ _ _ _
        (λ e. record {
          at = λ c a h f. record { whole = h.0; no_draft_id = h.1 ∙ false_of_not has e };
        })
        λ e. statement-Leaves db _ _ _ serial λ m t a h f. dropped-Clean t h.0

  indexes-Steps : Steps Clean (exec_all db auto_migrate cp_index_ddl) IsMigrated
  unfolding cp_index_ddl
  indexes-Steps =
      exec-Steps Clean Clean IsMigrated _ _ (λ t h e. drop_index-Clean _ t refl h)
        (exec-Steps Clean Clean IsMigrated _ _ (λ t h e. create_index-Clean _ t refl h)
          (exec-Steps Clean IsMigrated IsMigrated _ _ unique_index-IsMigrated (
            exec-Steps IsMigrated IsMigrated IsMigrated _ _
              (λ t h e. create_index-IsMigrated _ t refl h) (none-Steps IsMigrated))))

  migrate-Steps : Steps (λ t. IsNamed t.indexes) (migrate_cp_schema db auto_migrate) IsMigrated
  unfolding migrate_cp_schema
  migrate-Steps =
      bind-Leaves db _ (λ u. Undrafted) _ _ _ drafts-Steps
        λ u.
          bind-Leaves db _ (λ u. Undrafted) _ _ _ reset-Steps
            λ u.
              bind-Leaves db _ (λ u. Hashed) _ _ _ auto-Steps
                λ u. bind-Leaves db _ (λ u. Clean) _ _ _ drop_column-Steps λ u. indexes-Steps

-- If the migration answers no error, and at its start no other index has the name of the unique
-- one, the tables of the drafts and the column draft_id are gone, crypto_policies has its hash
-- column, and the index of that name is UNIQUE on the user and the wallet address of the active
-- policies, while nobody else writes and AutoMigrate makes every column and no index of that name.
pub migrate_cp_schema-IsMigrated :
    (db : Database Schema) (auto_migrate : Moment → Schema → Try Error (Unit {0}) × Schema)
    → AutoCreates auto_migrate
    → IsSerial db
    → (c : db.Conn) → IsNamed (db.seen c).indexes
    → (migrate_cp_schema db auto_migrate c).0 ≡ ok tt
    → IsMigrated (db.seen (migrate_cp_schema db auto_migrate c).1)
migrate_cp_schema-IsMigrated db auto_migrate auto serial c named done =
    (migrate-Steps db auto_migrate serial auto).at c tt named done
