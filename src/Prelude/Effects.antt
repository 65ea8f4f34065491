-- ===== src/Prelude/Effects.antt =====
-- Calls that read and change a state and may fail. What was done before a failure stays done, so
-- the state comes back beside the error too.
pub data Try {ℓ κ} (E : Type ℓ) (A : Type κ) : Type (ℓ ⊔ κ) where
  ok : A → Try E A
  err : E → Try E A

abbrev pub Exec : Type 0 → Type 0 → Type 0 → Type 0
Exec S E A = S → Try E A × S

module _ {S E A : Type 0} where
  abbrev pub pure : A → Exec S E A
  pure a s = (ok a, s)

  abbrev pub raise : E → Exec S E A
  raise e s = (err e, s)

module _ {S E A B : Type 0} where
  abbrev pub continue : Try E A → (A → Exec S E B) → Exec S E B
  continue (ok a) f s = f a s
  continue (err e) f s = (err e, s)

  infixl 10 ◌>>=◌ ◌>>◌
  abbrev pub ◌>>=◌ : Exec S E A → (A → Exec S E B) → Exec S E B
  ◌>>=◌ m f s = let (r, s') = m s in continue r f s'

  abbrev pub ◌>>◌ : Exec S E A → Exec S E B → Exec S E B
  m >> n = m >>= λ _. n

abbrev pub map_err {ℓ} : {E F A : Type ℓ} → (E → F) → Try E A → Try F A
map_err f (ok a) = ok a
map_err f (err e) = err (f e)

-- `if err != nil { return …, err }`: the caller says what it returns beside the error.
abbrev pub on_err : {S E F A : Type 0} → (E → F) → Exec S E A → Exec S F A
on_err f m s = let (r, s') = m s in (map_err f r, s')
