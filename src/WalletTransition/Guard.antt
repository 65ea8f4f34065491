-- ===== src/WalletTransition/Guard.antt =====
-- The guard of the UPDATE in SQL against the guard of `applyExisting` in Go.
use cafe_persistence.Prelude.{
  String, ◌≡◌, refl, true, false, List, [], ◌∷◌, arith, if◌then◌else◌, str_eq, str_eq_iff,
}
use cafe_persistence.Scan.{pending}
use cafe_persistence.WalletTransition.{logical, contains, stored_states, source_scope, is_nonempty}

contains-stored_states :
    (xs : List String) (s : String)
    → contains (stored_states xs) s ≡ (if str_eq s "" then false else contains xs s)
unfolding contains stored_states
contains-stored_states [] s = ground arith
contains-stored_states (x ∷ xs) s =
    ground (arith, contains-stored_states xs s, str_eq_iff x "", str_eq_iff x s, str_eq_iff s "")

contains-is_nonempty :
    (xs : List String) (s : String) → contains xs s ≡ true → is_nonempty xs ≡ true
unfolding contains
contains-is_nonempty [] s h = h
contains-is_nonempty (x ∷ xs) s h = refl

-- For every list of sources and every stored status, the WHERE clause of `sourceScope` matches the
-- status exactly when `applyExisting` finds its logical state among the sources.
pub source_scope-contains :
    (sources : List String) (status : String)
    → source_scope sources status ≡ contains sources (logical status)
unfolding source_scope logical
source_scope-contains sources status = ground (
  arith,
  contains-stored_states sources status,
  contains-stored_states sources pending,
  contains-is_nonempty (stored_states sources) status,
  contains-is_nonempty (stored_states sources) pending,
  str_eq_iff status "",
  str_eq_iff status pending,
)
