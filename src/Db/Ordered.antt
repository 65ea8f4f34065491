-- ===== src/Db/Ordered.antt =====
-- SELECT … WHERE p ORDER BY created_at DESC, id DESC LIMIT n OFFSET k, on the rows of one table.
use cafe_persistence.Prelude.{
  ℕ, zero, suc, ◌+◌, ◌≤◌, ◌≡◌, refl, ap, ◌∙◌, Bool, true, false, ◌||◌, ◌&&◌, List, [], ◌∷◌, ◌++◌,
  arith, if◌then◌else◌, ltb, leb, ◌==◌, length, Bool-cases, inl, inr,
}
use cafe_persistence.Db.Table.{count}
use mathlib.Core.List.{Perm}
use mathlib.Core.List.Perm
use native.Mathlib.Numerals.{unary_clauses}

suc_plus : (n m : ℕ) → suc (n + m) ≡ suc n + m
suc_plus n m = omega arith

module _ {R : Type 0} where
  -- WHERE p
  unfoldable pub select : (R → Bool) → List R → List R
  select p [] = []
  select p (r ∷ rs) = let rest = select p rs in if p r then r ∷ rest else rest

  -- OFFSET n
  unfoldable pub skip : ℕ → List R → List R
  skip zero rs = rs
  skip (suc n) [] = []
  skip (suc n) (r ∷ rs) = skip n rs

  -- LIMIT n
  unfoldable pub take : ℕ → List R → List R
  take zero rs = []
  take (suc n) [] = []
  take (suc n) (r ∷ rs) = r ∷ take n rs

  pub take-skip : (n m : ℕ) (rs : List R) → take n rs ++ take m (skip n rs) ≡ take (n + m) rs
  unfolding take skip
  take-skip zero m rs = ap (λ k. take k rs) (omega arith)
  take-skip (suc n) zero [] = simp unary_clauses refl
  take-skip (suc n) (suc m) [] = simp unary_clauses refl
  take-skip (suc n) m (r ∷ rs) =
      ap (◌∷◌ r) (take-skip n m rs) ∙ ap (λ k. take k (r ∷ rs)) (suc_plus n m)

  pub skip_add : (n m : ℕ) (rs : List R) → skip m (skip n rs) ≡ skip (n + m) rs
  unfolding skip
  skip_add zero m rs = ap (λ k. skip k rs) (omega arith)
  skip_add (suc n) zero [] = simp unary_clauses refl
  skip_add (suc n) (suc m) [] = simp unary_clauses refl
  skip_add (suc n) m (r ∷ rs) = skip_add n m rs ∙ ap (λ k. skip k (r ∷ rs)) (suc_plus n m)

  pub take_all : (n : ℕ) (rs : List R) → length rs ≤ n → take n rs ≡ rs
  unfolding take
  take_all zero [] h = refl
  take_all (suc n) [] h = refl
  take_all zero (r ∷ rs) h = absurd (omega (arith, h))
  take_all (suc n) (r ∷ rs) h = ap (◌∷◌ r) (take_all n rs (omega (arith, h)))

  pub length-select : (p : R → Bool) (rs : List R) → length (select p rs) ≡ count p rs
  unfolding select count
  length-select p [] = refl
  length-select p (r ∷ rs) = ground (arith, length-select p rs)

module _ {R : Type 0} (created_at id : R → ℕ) where
  abbrev pub newer : R → R → Bool
  newer a b = ltb (created_at b) (created_at a) || created_at a == created_at b && leb (id b) (id a)

  insert : R → List R → List R
  insert r [] = r ∷ []
  insert r (s ∷ ss) = let rest = insert r ss in if newer r s then r ∷ s ∷ ss else s ∷ rest

  -- ORDER BY created_at DESC, id DESC
  unfoldable pub newest_first : List R → List R
  unfolding insert
  newest_first [] = []
  newest_first (r ∷ rs) = insert r (newest_first rs)

  abbrev pub IsNewestFirst : List R → Type 0
  IsNewestFirst [] = Unit
  IsNewestFirst (r ∷ []) = Unit
  IsNewestFirst (r ∷ s ∷ ss) = (newer r s ≡ true) × IsNewestFirst (s ∷ ss)

  insert-Perm : (r : R) (rs : List R) → Perm (insert r rs) (r ∷ rs)
  unfolding insert
  insert-Perm r [] = Perm.rfl
  insert-Perm r (s ∷ ss) = elim (Bool-cases (newer r s)) [
    | inl y ↦ rw y Perm.rfl
    | inr n ↦ rw n (Perm.trans (Perm.cons s (insert-Perm r ss)) (Perm.swap r s ss))
  ]

  pub newest_first-Perm : (rs : List R) → Perm (newest_first rs) rs
  unfolding newest_first
  newest_first-Perm [] = Perm.rfl
  newest_first-Perm (r ∷ rs) =
      Perm.trans (insert-Perm r (newest_first rs)) (Perm.cons r (newest_first-Perm rs))

  newer_total : (r s : R) → newer r s ≡ false → newer s r ≡ true
  newer_total r s h = ground arith

  -- after a first row that is newer
  under :
      (t : R) (r : R) (rs : List R)
      → newer t r ≡ true
      → IsNewestFirst (t ∷ rs)
      → IsNewestFirst (insert r rs)
      → IsNewestFirst (t ∷ insert r rs)
  unfolding insert
  under t r [] h k l = (h, l)
  under t r (s ∷ ss) h k l = elim (Bool-cases (newer r s)) [
    | inl y ↦ rw y (h, rw y at l)
    | inr n ↦ rw n (k.0, rw n at l)
  ]

  tail : (r : R) (rs : List R) → IsNewestFirst (r ∷ rs) → IsNewestFirst rs
  tail r [] h = tt
  tail r (s ∷ ss) h = h.1

  insert-IsNewestFirst : (r : R) (rs : List R) → IsNewestFirst rs → IsNewestFirst (insert r rs)
  unfolding insert
  insert-IsNewestFirst r [] h = tt
  insert-IsNewestFirst r (s ∷ ss) h = elim (Bool-cases (newer r s)) [
    | inl y ↦ rw y (y, h)
    | inr n ↦ rw n (under s r ss (newer_total r s n) h (insert-IsNewestFirst r ss (tail s ss h)))
  ]

  pub newest_first-IsNewestFirst : (rs : List R) → IsNewestFirst (newest_first rs)
  unfolding newest_first
  newest_first-IsNewestFirst [] = tt
  newest_first-IsNewestFirst (r ∷ rs) =
      insert-IsNewestFirst r (newest_first rs) (newest_first-IsNewestFirst rs)

  length-insert : (r : R) (rs : List R) → length (insert r rs) ≡ suc (length rs)
  unfolding insert
  length-insert r [] = refl
  length-insert r (s ∷ ss) = ground (arith, length-insert r ss)

  pub length-newest_first : (rs : List R) → length (newest_first rs) ≡ length rs
  unfolding newest_first
  length-newest_first [] = refl
  length-newest_first (r ∷ rs) = length-insert r (newest_first rs) ∙ ap suc (length-newest_first rs)
