-- ===== src/Policies/Schema/Indexes.antt =====
-- What the statements of cpDropLegacyDDL and cpIndexDDL leave.
use cafe_persistence.Prelude.{
  String, ◌≡◌, refl, sym, ◌∙◌, ap, subst, true, false, Option, none, some, List, [], ◌∷◌, ◌⊎◌,
  str_eq, str_eq_iff, ok, Bool-cases, inl, inr,
}
use cafe_persistence.Db.{Error}
use cafe_persistence.Db.Table.{first}
use cafe_persistence.Db.Leaves.{absurd_err}
use cafe_persistence.Policies.Schema.{
  Schema, Index, drop_index, create_index, named, without_index, add_index, create, effect, column,
}

-- uidx_crypto_policies_user_wallet_active: one active policy a user and wallet
abbrev pub unique_index : Index
unique_index = record {
  name = "uidx_crypto_policies_user_wallet_active";
  unique = true;
  columns = "user_id" ∷ "wallet_address" ∷ [];
  active_only = true;
}

abbrev pub found_index : List Index → Option Index
found_index xs = first (named "uidx_crypto_policies_user_wallet_active") xs

-- No other index has the name of the unique one.
abbrev pub IsNamed : List Index → Type 0
IsNamed xs = (found_index xs ≡ none) ⊎ (found_index xs ≡ some unique_index)

-- Nothing is left of the drafts, and the unique index of the active policies is there.
pub record IsMigrated (t : Schema) : Type 0 where
  pub no_state : t.draft_persist_state ≡ false
  pub no_drafts : t.crypto_policy_drafts ≡ false
  pub no_draft_id : column (λ p. p.draft_id) t.crypto_policies ≡ false
  pub hashed : column (λ p. p.payload_sha256) t.crypto_policies ≡ true
  pub one_active : found_index t.indexes ≡ some unique_index

-- What holds after each part of the migration.
pub record Undrafted (t : Schema) : Type 0 where
  pub state : t.draft_persist_state ≡ false
  pub drafts : t.crypto_policy_drafts ≡ false
  pub index : IsNamed t.indexes

pub record Hashed (t : Schema) : Type 0 where
  pub undrafted : Undrafted t
  pub hashed : column (λ p. p.payload_sha256) t.crypto_policies ≡ true

pub record Clean (t : Schema) : Type 0 where
  pub whole : Hashed t
  pub no_draft_id : column (λ p. p.draft_id) t.crypto_policies ≡ false

pub reindexed-Clean :
    (t : Schema) (xs : List Index) → Clean t → IsNamed xs → Clean (record t { indexes = xs })
reindexed-Clean t xs h known = record {
  whole = record {
    undrafted = record {
      state = h.whole.undrafted.state;
      drafts = h.whole.undrafted.drafts;
      index = known;
    };
    hashed = h.whole.hashed;
  };
  no_draft_id = h.no_draft_id;
}

-- Another index changes nothing about the unique one.
drop_other :
    (name : String) (xs : List Index)
    → str_eq name "uidx_crypto_policies_user_wallet_active" ≡ false
    → found_index (without_index name xs) ≡ found_index xs
unfolding first without_index
drop_other name [] ne = refl
drop_other name (x ∷ xs) ne = elim (Bool-cases (named name x)) [
  | inl dropped ↦
      let apart : named "uidx_crypto_policies_user_wallet_active" x ≡ false =
        ap (λ n. str_eq n "uidx_crypto_policies_user_wallet_active")
          ((str_eq_iff x.name name).0 dropped)
        ∙ ne in
      rw (dropped, apart) (drop_other name xs ne)
  | inr kept ↦ rw (kept, drop_other name xs ne) refl
]

add_other :
    (x : Index) (t : Schema) (q : Option Error)
    → named "uidx_crypto_policies_user_wallet_active" x ≡ false
    → found_index (add_index x t q).1.indexes ≡ found_index t.indexes
unfolding first
add_other x t none ne = rw ne refl
add_other x t (some e) ne = refl

create_other :
    (x : Index) (t : Schema) (there : Option Index)
    → named "uidx_crypto_policies_user_wallet_active" x ≡ false
    → found_index (create x t there).1.indexes ≡ found_index t.indexes
create_other x t none ne = add_other x t _ ne
create_other x t (some y) ne = refl

add_index-only :
    (x : Index) (t : Schema) (q : Option Error)
    → let t' = (add_index x t q).1 in t' ≡ record t { indexes = t'.indexes }
add_index-only x t none = refl
add_index-only x t (some e) = refl

create-only :
    (x : Index) (t : Schema) (there : Option Index)
    → let t' = (create x t there).1 in t' ≡ record t { indexes = t'.indexes }
create-only x t (some y) = refl
create-only x t none = add_index-only x t _

create-Clean :
    (x : Index) (t : Schema) (there : Option Index)
    → Clean t
    → IsNamed (create x t there).1.indexes
    → Clean (create x t there).1
create-Clean x t there h known =
    subst Clean (sym (create-only x t there)) (reindexed-Clean t _ h known)

pub drop_index-Clean :
    (name : String) (t : Schema)
    → str_eq name "uidx_crypto_policies_user_wallet_active" ≡ false
    → Clean t
    → Clean (effect (drop_index name) t).1
unfolding effect
drop_index-Clean name t ne h = reindexed-Clean t _ h (
    subst (λ q. (q ≡ none) ⊎ (q ≡ some unique_index)) (sym (drop_other name t.indexes ne))
      h.whole.undrafted.index)

pub create_index-Clean :
    (x : Index) (t : Schema)
    → named "uidx_crypto_policies_user_wallet_active" x ≡ false
    → Clean t
    → Clean (effect (create_index x) t).1
unfolding effect
create_index-Clean x t ne h = create-Clean x t _ h (
    subst (λ q. (q ≡ none) ⊎ (q ≡ some unique_index)) (sym (create_other x t _ ne))
      h.whole.undrafted.index)

migrated : (t : Schema) → Clean t → found_index t.indexes ≡ some unique_index → IsMigrated t
migrated t h there = record {
  no_state = h.whole.undrafted.state;
  no_drafts = h.whole.undrafted.drafts;
  no_draft_id = h.no_draft_id;
  hashed = h.whole.hashed;
  one_active = there;
}

added-there :
    (t : Schema) (q : Option Error)
    → (add_index unique_index t q).0 ≡ ok tt
    → found_index (add_index unique_index t q).1.indexes ≡ some unique_index
unfolding first
added-there t none e = refl
added-there t (some x) e = absurd_err e

-- The unique index is made, or it is there already.
pub unique_index-IsMigrated :
    (t : Schema)
    → Clean t
    → (effect (create_index unique_index) t).0 ≡ ok tt
    → IsMigrated (effect (create_index unique_index) t).1
unfolding effect
unique_index-IsMigrated t h e = elim h.whole.undrafted.index [
  | inl absent ↦
      let made = added-there t _ (rw absent at e) in
      rw absent (
        migrated _
          (subst Clean (sym (add_index-only unique_index t _)) (reindexed-Clean t _ h (inr made)))
          made)
  | inr there ↦ rw there (migrated t h there)
]

pub create_index-IsMigrated :
    (x : Index) (t : Schema)
    → named "uidx_crypto_policies_user_wallet_active" x ≡ false
    → IsMigrated t
    → IsMigrated (effect (create_index x) t).1
unfolding effect
create_index-IsMigrated x t ne h =
    let same = create_other x t (first (named x.name) t.indexes) ne in
    let clean : Clean t = record {
      whole = record {
        undrafted = record { state = h.no_state; drafts = h.no_drafts; index = inr h.one_active };
        hashed = h.hashed;
      };
      no_draft_id = h.no_draft_id;
    } in
    migrated _ (create-Clean x t _ clean (inr (same ∙ h.one_active))) (same ∙ h.one_active)
