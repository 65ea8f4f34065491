-- ===== src/Pending/Held.antt =====
-- What a key of Redis holds after a write.
use cafe_persistence.Prelude.{
  ℕ, ◌+◌, String, ◌≡◌, refl, ap, true, false, none, some, [], ◌∷◌, arith, if◌then◌else◌, ltb,
  ==_iff, ==-refl, str_eq_iff, Bool-cases, inl, inr,
}
use cafe_persistence.Db.Table.{first, delete}
use cafe_persistence.Pending.{
  pending_ttl, PendingKey, scan, wallet, same_key, Entry, Store, has_key, is_live, held, stored,
  removed,
}

pub same_key-path : (k j : PendingKey) → same_key k j ≡ true → k ≡ j
same_key-path (scan a) (scan b) h = ap PendingKey.scan ((==_iff a b).0 h)
same_key-path (scan a) (wallet v b) h = cc
same_key-path (wallet u a) (scan b) h = cc
same_key-path (wallet u a) (wallet v b) h = ground (arith, ==_iff u v, str_eq_iff a b)

pub same_key_self : (k : PendingKey) → same_key k k ≡ true
same_key_self (scan a) = ==-refl a
same_key_self (wallet u a) = ground (arith, str_eq_iff a a)

-- an entry of one key is none of another
apart :
    (k j : PendingKey) (e : Entry) → same_key k j ≡ false → has_key k e ≡ true → has_key j e ≡ false
apart k j e ne h = rw (same_key-path e.key k h) ne

first-removed :
    (k : PendingKey) (now : ℕ) (entries : Store)
    → first (is_live k now) (delete (has_key k) entries) ≡ none
unfolding first delete
first-removed k now [] = refl
first-removed k now (e ∷ entries) = ground (arith, first-removed k now entries)

first-removed_other :
    (k j : PendingKey) (now : ℕ) (entries : Store)
    → same_key k j ≡ false
    → first (is_live j now) (delete (has_key k) entries) ≡ first (is_live j now) entries
unfolding first delete
first-removed_other k j now [] ne = refl
first-removed_other k j now (e ∷ entries) ne =
    ground (arith, apart k j e ne, first-removed_other k j now entries ne)

module _ (k : PendingKey) (now : ℕ) (entries : Store) where
  pub held-removed : held k now (removed k entries) ≡ none
  unfolding held removed
  held-removed = rw (first-removed k now entries) refl

  -- A value is held until it expires.
  pub held-stored :
      (v : String) (set_at : ℕ)
      → held k now (stored k v set_at entries)
        ≡ (if ltb now (set_at + pending_ttl) then some v else none)
  unfolding held stored first
  held-stored v set_at = elim (Bool-cases (ltb now (set_at + pending_ttl))) [
    | inl live ↦ rw (same_key_self k, live) refl
    | inr dead ↦ rw (same_key_self k, dead, first-removed k now entries) refl
  ]

module _ (k j : PendingKey) (now : ℕ) (entries : Store) (ne : same_key k j ≡ false) where
  pub held-removed_other : held j now (removed k entries) ≡ held j now entries
  unfolding held removed
  held-removed_other = rw (first-removed_other k j now entries ne) refl

  pub held-stored_other :
      (v : String) (set_at : ℕ) → held j now (stored k v set_at entries) ≡ held j now entries
  unfolding held stored first
  held-stored_other v set_at = rw (ne, first-removed_other k j now entries ne) refl
