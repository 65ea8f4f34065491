-- ===== src/ChainConfig.antt =====
-- internal/config/chain.go: the blockchains of the configuration. A Go map is a list of pairs in
-- which the first one of a key counts.
pub mod Validated
use cafe_persistence.Prelude.{
  String, Bool, true, false, ◌||◌, Option, none, some, List, [], ◌∷◌, if◌then◌else◌, ◌==◌, str_eq,
  ℤ, pos, negsuc, is_non_positive, Try, ok, err,
}
use cafe_persistence.ScanApi.Text.{trim_space}

pub record Blockchain : Type 0 where
  pub name : String
  pub chain_id : ℤ

pub data ConfigError : Type 0 where
  name_required duplicate_name chain_id_not_positive duplicate_chain_id : ConfigError

abbrev pub same_id : ℤ → ℤ → Bool
same_id (pos m) (pos n) = m == n
same_id (negsuc m) (negsuc n) = m == n
same_id _ _ = false

abbrev pub has_name : String → List String → Bool
has_name s [] = false
has_name s (x ∷ xs) = str_eq s x || has_name s xs

abbrev pub has_id : ℤ → List ℤ → Bool
has_id i [] = false
has_id i (x ∷ xs) = same_id i x || has_id i xs

-- the loop of Validate, with `seenName` and the keys of `seenChain`
unfoldable pub validate_from : List String → List ℤ → List Blockchain → Try ConfigError (Unit {0})
validate_from names ids [] = ok tt
validate_from names ids (b ∷ bs) =
    let name = trim_space b.name in
    let rest = validate_from (name ∷ names) (b.chain_id ∷ ids) bs in
    if str_eq name ""
    then err name_required
    else (if has_name name names
        then err duplicate_name
        else (if is_non_positive b.chain_id
            then err chain_id_not_positive
            else (if has_id b.chain_id ids then err duplicate_chain_id else rest)))

unfoldable pub validate : List Blockchain → Try ConfigError (Unit {0})
unfolding validate_from
validate bs = validate_from [] [] bs

abbrev pub with_chain : Blockchain → List (String × ℤ) → List (String × ℤ)
with_chain b m = if is_non_positive b.chain_id then m else (b.name, b.chain_id) ∷ m

-- the loop of ChainIDByNetwork, with the map `m`
unfoldable pub add_chains : List (String × ℤ) → List Blockchain → List (String × ℤ)
add_chains m [] = m
add_chains m (b ∷ bs) = add_chains (with_chain b m) bs

unfoldable pub chain_id_by_network : List Blockchain → List (String × ℤ)
unfolding add_chains
chain_id_by_network bs = add_chains [] bs

unfoldable pub chain_of : String → List (String × ℤ) → Option ℤ
chain_of n [] = none
chain_of n ((k, i) ∷ m) = if str_eq k n then some i else chain_of n m
