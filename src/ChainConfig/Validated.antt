-- ===== src/ChainConfig/Validated.antt =====
-- What Validate gives the export of observations.
use cafe_persistence.Prelude.{
  String, ◌≡◌, refl, sym, ◌∙◌, ap, subst, Bool, true, false, some, List, [], ◌∷◌, arith, str_eq,
  str_eq_iff, ℤ, is_non_positive, ok, Bool-cases, ◌⊎◌, inl, inr,
}
use cafe_persistence.ScanApi.Text.{trim_space}
use cafe_persistence.ChainConfig.{
  Blockchain, has_name, validate_from, validate, with_chain, add_chains, chain_id_by_network,
  chain_of,
}

-- `b` is one of the blockchains.
abbrev pub Among : Blockchain → List Blockchain → Type 0
Among b [] = ⊥
Among b (x ∷ bs) = (b ≡ x) ⊎ Among b bs

-- An accepted list begins with an accepted entry.
accepted_first :
    (names : List String) (ids : List ℤ) (b : Blockchain) (bs : List Blockchain)
    → validate_from names ids (b ∷ bs) ≡ ok tt
    → (has_name (trim_space b.name) names ≡ false)
      × (is_non_positive b.chain_id ≡ false)
      × (validate_from (trim_space b.name ∷ names) (b.chain_id ∷ ids) bs ≡ ok tt)
unfolding validate_from
accepted_first names ids b bs h = ground arith

Bool-false : (b : Bool) → (b ≡ true → ⊥) → b ≡ false
Bool-false true h = absurd (h refl)
Bool-false false h = refl

-- A name that was seen does not come again.
seen_once :
    (names : List String) (ids : List ℤ) (bs : List Blockchain) (b : Blockchain) (s : String)
    → validate_from names ids bs ≡ ok tt
    → has_name (trim_space s) names ≡ true
    → Among b bs
    → str_eq b.name s ≡ false
seen_once names ids [] b s h seen a = absurd a
seen_once names ids (x ∷ bs) b s h seen (inl e) = Bool-false (str_eq b.name s) (λ same.
    let name : s ≡ x.name =
      sym ((str_eq_iff b.name s).0 same) ∙ ap (λ (y : Blockchain). y.name) e in
    cc (ap (λ n. has_name (trim_space n) names) name, seen, (accepted_first names ids x bs h).0))
seen_once names ids (x ∷ bs) b s h seen (inr a) =
    seen_once (trim_space x.name ∷ names) (x.chain_id ∷ ids) bs b s
      (accepted_first names ids x bs h).2 (rw seen (ground arith)) a

with_chain-other :
    (m : List (String × ℤ)) (x : Blockchain) (s : String)
    → str_eq x.name s ≡ false
    → chain_of s (with_chain x m) ≡ chain_of s m
unfolding chain_of
with_chain-other m x s ne = elim (Bool-cases (is_non_positive x.chain_id)) [
  | inl zero_or_less ↦ rw zero_or_less refl
  | inr positive ↦ rw (positive, ne) refl
]

with_chain_self :
    (m : List (String × ℤ)) (x : Blockchain)
    → is_non_positive x.chain_id ≡ false
    → chain_of x.name (with_chain x m) ≡ some x.chain_id
unfolding chain_of
with_chain_self m x positive = rw (positive, (str_eq_iff x.name x.name).1 refl) refl

has_name-first : (s : String) (names : List String) → has_name s (s ∷ names) ≡ true
has_name-first s names = rw ((str_eq_iff s s).1 refl) refl

-- A name that does not come again keeps its chain id.
kept_id :
    (m : List (String × ℤ)) (bs : List Blockchain) (s : String)
    → ((b : Blockchain) → Among b bs → str_eq b.name s ≡ false)
    → chain_of s (add_chains m bs) ≡ chain_of s m
unfolding add_chains chain_of
kept_id m [] s other = refl
kept_id m (x ∷ bs) s other =
    kept_id (with_chain x m) bs s (λ b a. other b (inr a))
    ∙ with_chain-other m x s (other x (inl refl))

found_first :
    (m : List (String × ℤ)) (names : List String) (ids : List ℤ) (bs : List Blockchain)
    (x : Blockchain)
    → validate_from names ids (x ∷ bs) ≡ ok tt
    → chain_of x.name (add_chains (with_chain x m) bs) ≡ some x.chain_id
found_first m names ids bs x h =
    let (_, positive, rest) = accepted_first names ids x bs h in
    kept_id (with_chain x m) bs x.name (λ b a.
      seen_once (trim_space x.name ∷ names) (x.chain_id ∷ ids) bs b x.name rest
        (has_name-first (trim_space x.name) names) a)
    ∙ with_chain_self m x positive

found_id :
    (m : List (String × ℤ)) (names : List String) (ids : List ℤ) (bs : List Blockchain)
    (b : Blockchain)
    → validate_from names ids bs ≡ ok tt
    → Among b bs
    → chain_of b.name (add_chains m bs) ≡ some b.chain_id
unfolding add_chains
found_id m names ids [] b h a = absurd a
found_id m names ids (x ∷ bs) b h (inl e) =
    subst (λ y. chain_of y.name (add_chains (with_chain x m) bs) ≡ some y.chain_id) (sym e)
      (found_first m names ids bs x h)
found_id m names ids (x ∷ bs) b h (inr a) =
    found_id (with_chain x m) (trim_space x.name ∷ names) (x.chain_id ∷ ids) bs b
      (accepted_first names ids x bs h).2 a

-- If the blockchains are valid, the map of chain ids has every blockchain's id under its name, as
-- it is written in the file.
pub valid_chains_found :
    (bs : List Blockchain) (b : Blockchain)
    → validate bs ≡ ok tt
    → Among b bs
    → chain_of b.name (chain_id_by_network bs) ≡ some b.chain_id
unfolding validate chain_id_by_network
valid_chains_found bs b h a = found_id [] [] [] bs b h a
