-- ===== src/Db/Table.antt =====
-- What the SQL of the program does to the rows of one table.
use cafe_persistence.Prelude.{
  ℕ, ◌+◌, ◌≡◌, refl, Bool, true, false, ◌||◌, ◌&&◌, Option, none, some, List, [], ◌∷◌, ◌++◌, arith,
  if◌then◌else◌, ltb, ◌==◌,
}

module _ {R : Type 0} where
  -- SELECT … WHERE p LIMIT 1
  unfoldable pub first : (R → Bool) → List R → Option R
  first p [] = none
  first p (r ∷ rs) = if p r then some r else first p rs

  -- SELECT COUNT(*) … WHERE p
  unfoldable pub count : (R → Bool) → List R → ℕ
  count p [] = 0
  count p (r ∷ rs) = (if p r then 1 else 0) + count p rs

  -- UPDATE … SET f WHERE p
  unfoldable pub update : (R → Bool) → (R → R) → List R → List R
  update p f [] = []
  update p f (r ∷ rs) = (if p r then f r else r) ∷ update p f rs

  -- DELETE … WHERE p
  unfoldable pub delete : (R → Bool) → List R → List R
  delete p [] = []
  delete p (r ∷ rs) = let rest = delete p rs in if p r then rest else r ∷ rest

  unfoldable pub exists : (R → Bool) → List R → Bool
  exists p [] = false
  exists p (r ∷ rs) = p r || exists p rs

-- How the statements on one table act together.
module _ {R : Type 0} (p q : R → Bool) (f : R → R) where
  abbrev pub both : R → Bool
  both r = p r && q r

  -- The first match of `p`, if it is in the scope `q`, is found as the update left it.
  pub first-update :
      (rs : List R) (r : R)
      → ((x : R) → p x ≡ true → p (f x) ≡ true)
      → first p rs ≡ some r
      → q r ≡ true
      → first p (update both f rs) ≡ some (f r)
  unfolding first update
  first-update [] r keep h hq = cc
  first-update (x ∷ rs) r keep h hq = ground (arith, keep x, first-update rs r keep)

  pub count-pos :
      (rs : List R) (r : R) → first p rs ≡ some r → q r ≡ true → (count both rs == 0) ≡ false
  unfolding first count
  count-pos [] r h hq = cc
  count-pos (x ∷ rs) r h hq = ground (arith, count-pos rs r)

module _ {R : Type 0} (p : R → Bool) where
  pub first-append_none :
      (rs : List R) (x : R)
      → first p rs ≡ none
      → first p (rs ++ x ∷ []) ≡ (if p x then some x else none)
  unfolding first
  first-append_none [] x h = refl
  first-append_none (y ∷ rs) x h = ground (arith, first-append_none rs x)

  pub first-holds : (rs : List R) (r : R) → first p rs ≡ some r → p r ≡ true
  unfolding first
  first-holds [] r h = cc
  first-holds (x ∷ rs) r h = ground (arith, first-holds rs r)

module _ {R : Type 0} (p q : R → Bool) where
  -- An update of rows that `q` does not match, which stay so, is not seen through `q`.
  pub first-update_other :
      (f : R → R) (rs : List R)
      → ((x : R) → p x ≡ true → (q x ≡ false) × (q (f x) ≡ false))
      → first q (update p f rs) ≡ first q rs
  unfolding first update
  first-update_other f [] keep = refl
  first-update_other f (x ∷ rs) keep = ground (arith, keep x, first-update_other f rs keep)

module _ {R : Type 0} (q : R → Bool) where
  pub first-append_other : (rs : List R) (x : R) → q x ≡ false → first q (rs ++ x ∷ []) ≡ first q rs
  unfolding first
  first-append_other [] x h = ground arith
  first-append_other (y ∷ rs) x h = ground (arith, first-append_other rs x h)

  pub count-delete : (rs : List R) → count q (delete q rs) ≡ 0
  unfolding count delete
  count-delete [] = refl
  count-delete (x ∷ rs) = ground (arith, count-delete rs)

module _ {R : Type 0} (p q : R → Bool) where
  pub count-delete_other :
      (rs : List R) → ((x : R) → p x ≡ true → q x ≡ false) → count q (delete p rs) ≡ count q rs
  unfolding count delete
  count-delete_other [] apart = refl
  count-delete_other (x ∷ rs) apart = ground (arith, apart x, count-delete_other rs apart)

module _ {R : Type 0} (p : R → Bool) where
  pub count-append :
      (rs : List R) (x : R) → count p (rs ++ x ∷ []) ≡ count p rs + (if p x then 1 else 0)
  unfolding count
  count-append [] x = ground arith
  count-append (y ∷ rs) x = ground (arith, count-append rs x)

  pub exists-count : (rs : List R) → exists p rs ≡ ltb 0 (count p rs)
  unfolding exists count
  exists-count [] = refl
  exists-count (x ∷ rs) = ground (arith, exists-count rs)

module _ {R : Type 0} (p : R → Bool) where
  -- The first match of an update is the first match as the update left it.
  pub first-update_self :
      (f : R → R) (rs : List R) (r : R)
      → ((x : R) → p x ≡ true → p (f x) ≡ true)
      → first p rs ≡ some r
      → (first p (update p f rs) ≡ some (f r)) × ((count p rs == 0) ≡ false)
  unfolding first update count
  first-update_self f [] r keep h = cc
  first-update_self f (x ∷ rs) r keep h = ground (arith, keep x, first-update_self f rs r keep)

  pub update-none :
      (f : R → R) (rs : List R) → first p rs ≡ none → (update p f rs ≡ rs) × (count p rs ≡ 0)
  unfolding first update count
  update-none f [] h = (refl, refl)
  update-none f (x ∷ rs) h = ground (arith, update-none f rs)
