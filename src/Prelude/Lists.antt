-- ===== src/Prelude/Lists.antt =====
-- Lists measured by native numbers, and loops that search, filter and count by a Boolean test.
use Prim.Native.Nat.{ℕ, suc}
use mathlib.Core.List.{List, [], ◌∷◌}

module _ {ℓ} {A : Type ℓ} where
  abbrev pub length : List A → ℕ
  length [] = 0
  length (x ∷ xs) = suc (length xs)
