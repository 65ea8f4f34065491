-- ===== src/Policies/Schema/Kept.antt =====
-- What a migration of the policies keeps.
use cafe_persistence.Prelude.{
  ◌≡◌, refl, ◌∙◌, ap, Bool, true, false, not, ◌&&◌, Option, none, some, List, [], ◌∷◌,
  if◌then◌else◌, Try, ok, Exec, pure, Bool-cases, inl, inr,
}
use cafe_persistence.Db.{Error, Moment, Database, IsSerial, statement}
use cafe_persistence.Db.Table.{first}
use cafe_persistence.Db.Preserves.{
  Preserves, pure-Preserves, bind-Preserves, answer-Preserves, if-Preserves, statement-Preserves,
}
use cafe_persistence.Policies.Schema.{
  PolicyTable, Schema, Index, Ddl, drop_draft_persist_state, drop_crypto_policy_drafts, drop_index,
  create_index, cp_drop_legacy_ddl, cp_index_ddl, named, add_index, create, effect, column, query,
  exec_all, table_exists, column_exists, drop_crypto_policies, reset_crypto_policies_if_legacy,
  drop_legacy_draft_id_column, migrate_cp_schema,
}

-- AutoMigrate deletes neither columns nor rows: a table with all its columns stays as it is.
pub record AutoMigrates (auto_migrate : Moment → Schema → Try Error (Unit {0}) × Schema)
    : Type 0 where
  pub keeps :
      (m : Moment) (t : Schema) (p : PolicyTable)
      → t.crypto_policies ≡ some p
      → p.payload_sha256 ≡ true
      → (auto_migrate m t).1.crypto_policies ≡ some p

add_index-table :
    (x : Index) (t : Schema) (q : Option Error)
    → (add_index x t q).1.crypto_policies ≡ t.crypto_policies
add_index-table x t none = refl
add_index-table x t (some e) = refl

create-table :
    (x : Index) (t : Schema) (there : Option Index)
    → (create x t there).1.crypto_policies ≡ t.crypto_policies
create-table x t (some y) = refl
create-table x t none = add_index-table x t _

effect-table : (q : Ddl) (t : Schema) → (effect q t).1.crypto_policies ≡ t.crypto_policies
unfolding effect
effect-table drop_draft_persist_state t = refl
effect-table drop_crypto_policy_drafts t = refl
effect-table (drop_index name) t = refl
effect-table (create_index x) t = create-table x t (first (named x.name) t.indexes)

query-answer :
    (db : Database Schema) (holds : Schema → Bool) (c : db.Conn) (a : Bool)
    → (statement db (λ m t. (ok (holds t), t)) c).0 ≡ ok a
    → a ≡ holds (db.seen c)
unfolding statement
query-answer db holds c a h = elim (Bool-cases (db.fails c)) [
  | inl down ↦ cc (rw down at h)
  | inr up ↦ cc (rw up at h)
]

module _ (db : Database Schema) (auto_migrate : Moment → Schema → Try Error (Unit {0}) × Schema)
    (serial : IsSerial db) (p : PolicyTable) where
  abbrev Inv : Schema → Type 0
  Inv t = t.crypto_policies ≡ some p

  abbrev Keeps : {A : Type 0} → Exec db.Conn Error A → Type 0
  Keeps = Preserves db Inv

  done-Keeps : Keeps (λ c. (ok tt, c))
  done-Keeps = pure-Preserves db Inv (ok tt)

  exec_all-Keeps : (qs : List Ddl) → Keeps (exec_all db auto_migrate qs)
  unfolding exec_all
  exec_all-Keeps [] = done-Keeps
  exec_all-Keeps (q ∷ qs) =
      bind-Preserves db Inv _ (statement-Preserves db Inv _ serial λ m t h. effect-table q t ∙ h)
        λ u. exec_all-Keeps qs

  query-Keeps : (holds : Schema → Bool) → Keeps (query db auto_migrate holds)
  unfolding query
  query-Keeps holds = statement-Preserves db Inv _ serial λ m t h. h

  -- A query of a column answers what the table has.
  column-answer :
      (has : PolicyTable → Bool) (c : db.Conn) (a : Bool)
      → Inv (db.seen c)
      → (column_exists db auto_migrate has c).0 ≡ ok a
      → a ≡ has p
  unfolding column_exists query
  column-answer has c a h e =
      query-answer db (λ t. column has t.crypto_policies) c a e ∙ ap (column has) h

  module _ (current : p.draft_id ≡ false) (hashed : p.payload_sha256 ≡ true) where
    -- A table of today is not dropped.
    spared-Keeps :
        (has_draft_id has_payload_sha : Bool)
        → has_draft_id ≡ false
        → has_payload_sha ≡ true
        → Keeps (
            if not has_draft_id && has_payload_sha
            then pure tt
            else drop_crypto_policies db auto_migrate)
    spared-Keeps has_draft_id has_payload_sha e f = rw (e, f) done-Keeps

    reset-Keeps : Keeps (reset_crypto_policies_if_legacy db auto_migrate)
    unfolding reset_crypto_policies_if_legacy table_exists column_exists
    reset-Keeps = bind-Preserves db Inv _ (query-Keeps _) λ present.
        if-Preserves db Inv (not present) _ _ done-Keeps (
          answer-Preserves db Inv (λ a. a ≡ p.draft_id) _ (query-Keeps _)
            (column-answer (λ x. x.draft_id))
            λ has_draft_id e.
              answer-Preserves db Inv (λ a. a ≡ p.payload_sha256) _ (query-Keeps _)
                (column-answer (λ x. x.payload_sha256))
                λ has_payload_sha f.
                  spared-Keeps has_draft_id has_payload_sha (e ∙ current) (f ∙ hashed))

    if_absent-Keeps :
        (has : Bool) (m : Exec db.Conn Error (Unit {0}))
        → has ≡ false
        → Keeps (if not has then pure tt else m)
    if_absent-Keeps has m e = rw e done-Keeps

    drop_column-Keeps : Keeps (drop_legacy_draft_id_column db auto_migrate)
    unfolding drop_legacy_draft_id_column column_exists
    drop_column-Keeps =
        answer-Preserves db Inv (λ a. a ≡ p.draft_id) _ (query-Keeps _)
          (column-answer (λ x. x.draft_id)) λ has e. if_absent-Keeps has _ (e ∙ current)

    migrate-Keeps : AutoMigrates auto_migrate → Keeps (migrate_cp_schema db auto_migrate)
    unfolding migrate_cp_schema
    migrate-Keeps auto = bind-Preserves db Inv _ (exec_all-Keeps cp_drop_legacy_ddl) λ u.
        bind-Preserves db Inv _ reset-Keeps λ u.
          bind-Preserves db Inv _
            (statement-Preserves db Inv _ serial λ m t h. auto.keeps m t p h hashed)
            λ u. bind-Preserves db Inv _ drop_column-Keeps λ u. exec_all-Keeps cp_index_ddl

-- A restart keeps the policies: a table without draft_id and with payload_sha256 is after the
-- migration as it was before, with every row and whichever of its statements fail, while nobody
-- else writes and AutoMigrate deletes nothing.
pub migrate_cp_schema-keeps :
    (db : Database Schema) (auto_migrate : Moment → Schema → Try Error (Unit {0}) × Schema)
    → AutoMigrates auto_migrate
    → IsSerial db
    → (c : db.Conn) (p : PolicyTable) → (db.seen c).crypto_policies ≡ some p
    → p.draft_id ≡ false
    → p.payload_sha256 ≡ true
    → (db.seen (migrate_cp_schema db auto_migrate c).1).crypto_policies ≡ some p
migrate_cp_schema-keeps db auto_migrate auto serial c p table current hashed =
    (migrate-Keeps db auto_migrate serial p current hashed auto).at c table
