-- ===== src/WalletObservation/ChainIds.antt =====
-- The order and the contents of the chain ids of an observation.
use cafe_persistence.Prelude.{
  String, ◌≡◌, refl, sym, ◌∙◌, ap, Bool, true, false, not, ◌||◌, ◌&&◌, Option, none, some, List, [],
  ◌∷◌, arith, ==_iff, ℤ, pos, negsuc, Bool-cases, inl, inr,
}
use cafe_persistence.ChainConfig.{same_id, has_id, chain_of}
use cafe_persistence.WalletObservation.{less_id, add_id, add_found, seen_ids, resolve_chain_ids}

abbrev Above : ℤ → List ℤ → Type 0
Above i [] = Unit
Above i (x ∷ xs) = (less_id i x ≡ true) × Above i xs

-- Every id is less than all that follow it.
abbrev pub Ascending : List ℤ → Type 0
Ascending [] = Unit
Ascending (x ∷ xs) = Above x xs × Ascending xs

less_id_trans : (i j k : ℤ) → less_id i j ≡ true → less_id j k ≡ true → less_id i k ≡ true
less_id_trans (pos a) (pos b) (pos c) h k = ground (arith, h, k)
less_id_trans (pos a) (pos b) (negsuc c) h k = k
less_id_trans (pos a) (negsuc b) k h l = cc
less_id_trans (negsuc a) j (pos c) h k = refl
less_id_trans (negsuc a) (pos b) (negsuc c) h k = cc
less_id_trans (negsuc a) (negsuc b) (negsuc c) h k = ground (arith, h, k)

greater : (i j : ℤ) → same_id i j ≡ false → less_id i j ≡ false → less_id j i ≡ true
greater (pos a) (pos b) h k = ground (arith, h, k)
greater (pos a) (negsuc b) h k = refl
greater (negsuc a) (pos b) h k = cc
greater (negsuc a) (negsuc b) h k = ground (arith, h, k)

Above-less_id : (i j : ℤ) (xs : List ℤ) → less_id i j ≡ true → Above j xs → Above i xs
Above-less_id i j [] h a = tt
Above-less_id i j (x ∷ xs) h a = (less_id_trans i j x h a.0, Above-less_id i j xs h a.1)

add_id-Above : (i j : ℤ) (xs : List ℤ) → less_id j i ≡ true → Above j xs → Above j (add_id i xs)
unfolding add_id
add_id-Above i j [] h a = (h, tt)
add_id-Above i j (x ∷ xs) h a = elim (Bool-cases (same_id i x)) [
  | inl same ↦ rw same a
  | inr other ↦ elim (Bool-cases (less_id i x)) [
    | inl less ↦ rw (other, less) (h, a)
    | inr more ↦ rw (other, more) (a.0, add_id-Above i j xs h a.1)
  ]
]

add_id-Ascending : (i : ℤ) (xs : List ℤ) → Ascending xs → Ascending (add_id i xs)
unfolding add_id
add_id-Ascending i [] a = (tt, tt)
add_id-Ascending i (x ∷ xs) a = elim (Bool-cases (same_id i x)) [
  | inl same ↦ rw same a
  | inr other ↦ elim (Bool-cases (less_id i x)) [
    | inl less ↦ rw (other, less) ((less, Above-less_id i x xs less a.0), a)
    | inr more ↦
        rw (other, more)
          (add_id-Above i x xs (greater i x other more) a.0, add_id-Ascending i xs a.1)
  ]
]

add_found-Ascending :
    (found : Option ℤ) (xs : List ℤ) → Ascending xs → Ascending (add_found found xs)
add_found-Ascending none xs a = a
add_found-Ascending (some i) xs a = elim (Bool-cases (same_id i (pos 0))) [
  | inl zero_id ↦ rw zero_id a
  | inr other ↦ rw other (add_id-Ascending i xs a)
]

seen_ids-Ascending :
    (chains : List (String × ℤ)) (networks : List String) → Ascending (seen_ids chains networks)
unfolding seen_ids
seen_ids-Ascending chains [] = tt
seen_ids-Ascending chains (n ∷ networks) =
    add_found-Ascending (chain_of n chains) _ (seen_ids-Ascending chains networks)

-- The chain ids of an observation ascend strictly, so that none comes twice.
pub resolve_chain_ids-Ascending :
    (networks : List String) (chains : List (String × ℤ))
    → Ascending (resolve_chain_ids networks chains)
unfolding resolve_chain_ids
resolve_chain_ids-Ascending networks [] = tt
resolve_chain_ids-Ascending networks (c ∷ chains) = seen_ids-Ascending (c ∷ chains) networks

same_id-path : (i j : ℤ) → same_id i j ≡ true → i ≡ j
same_id-path (pos a) (pos b) h = ap pos ((==_iff a b).0 h)
same_id-path (pos a) (negsuc b) h = cc
same_id-path (negsuc a) (pos b) h = cc
same_id-path (negsuc a) (negsuc b) h = ap negsuc ((==_iff a b).0 h)

has_id-add_id : (i j : ℤ) (xs : List ℤ) → has_id j (add_id i xs) ≡ (same_id j i || has_id j xs)
unfolding add_id
has_id-add_id i j [] = refl
has_id-add_id i j (x ∷ xs) = elim (Bool-cases (same_id i x)) [
  | inl same ↦ rw (same, same_id-path i x same) (ground arith)
  | inr other ↦ elim (Bool-cases (less_id i x)) [
    | inl less ↦ rw (other, less) refl
    | inr more ↦ rw (other, more) (ground (arith, has_id-add_id i j xs))
  ]
]

-- Is it the chain id `j` that was found, and not 0?
abbrev is_found : ℤ → Option ℤ → Bool
is_found j none = false
is_found j (some i) = not (same_id i (pos 0)) && same_id j i

-- Does one of the networks have the chain id `j`?
abbrev pub one_has : ℤ → List (String × ℤ) → List String → Bool
one_has j chains [] = false
one_has j chains (n ∷ networks) = is_found j (chain_of n chains) || one_has j chains networks

has_id-add_found :
    (j : ℤ) (found : Option ℤ) (xs : List ℤ)
    → has_id j (add_found found xs) ≡ (is_found j found || has_id j xs)
has_id-add_found j none xs = refl
has_id-add_found j (some i) xs = elim (Bool-cases (same_id i (pos 0))) [
  | inl zero_id ↦ rw zero_id refl
  | inr other ↦ rw other (has_id-add_id i j xs)
]

has_id-seen_ids :
    (j : ℤ) (chains : List (String × ℤ)) (networks : List String)
    → has_id j (seen_ids chains networks) ≡ one_has j chains networks
unfolding seen_ids
has_id-seen_ids j chains [] = refl
has_id-seen_ids j chains (n ∷ networks) =
    has_id-add_found j (chain_of n chains) (seen_ids chains networks)
    ∙ ap (λ b. is_found j (chain_of n chains) || b) (has_id-seen_ids j chains networks)

none_has : (j : ℤ) (networks : List String) → one_has j [] networks ≡ false
unfolding chain_of
none_has j [] = refl
none_has j (n ∷ networks) = none_has j networks

-- An id is among the chain ids of an observation exactly if it is not 0 and the configuration has
-- it for one of the networks.
pub has_id-resolve_chain_ids :
    (j : ℤ) (networks : List String) (chains : List (String × ℤ))
    → has_id j (resolve_chain_ids networks chains) ≡ one_has j chains networks
unfolding resolve_chain_ids
has_id-resolve_chain_ids j networks [] = sym (none_has j networks)
has_id-resolve_chain_ids j networks (c ∷ chains) = has_id-seen_ids j (c ∷ chains) networks
