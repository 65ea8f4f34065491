-- ===== src/Policies/OneActive.antt =====
-- The policies that a wallet has at one time, and the writes to the table.
use cafe_persistence.Prelude.{
  ℕ, ◌+◌, ◌≤◌, String, ◌≡◌, refl, subst, Option, none, some, Bool, true, false, not, ◌&&◌, ◌||◌,
  ◌==◌, List, [], ◌∷◌, arith, str_eq, str_eq_iff, Bool-cases, inl, inr,
}
use cafe_persistence.Db.Table.{count, exists, update, count-append}
use Prim.Native.Char.{Char}
use cafe_persistence.ScanApi.Text.{trim_space, to_lower, drop, has_prefix}
use cafe_persistence.Policies.Wallets.{size, all_hex, prefixed, normalize_wallet_target_address}
use cafe_persistence.Policies.{CryptoPolicyEntity, is_active, clashes, insert_policy}

abbrev pub active_for : String → String → CryptoPolicyEntity → Bool
active_for user_id wallet ent =
    is_active ent && (str_eq ent.user_id user_id && str_eq ent.wallet_address wallet)

-- 0x and forty hexadecimal digits in lower case
abbrev pub is_wallet : String → Bool
is_wallet a = size a == 42 && (has_prefix "0x" a && all_hex (drop 2 a))

abbrev pub is_misspelled : CryptoPolicyEntity → Bool
is_misspelled ent = not (is_wallet ent.wallet_address)

-- No user has two active policies of one wallet, and every wallet is spelled in the one way.
pub record OneActive (rows : List CryptoPolicyEntity) : Type 0 where
  pub one : (user_id wallet : String) → count (active_for user_id wallet) rows ≤ 1
  pub spelled : count is_misspelled rows ≡ 0

and_all : (a b c : Bool) → a ≡ true → b ≡ true → c ≡ true → (a && (b && c)) ≡ true
and_all a b c h k l = rw (h, k, l) refl

some_same : {a b : String} → ◌≡◌ {A = Option String} (some a) (some b) → a ≡ b
some_same h = cc

not_some : {A B : Type 0} {a : A} → ◌≡◌ {A = Option A} none (some a) → B
not_some h = cc

both_true : (a b : Bool) → (not a || not b) ≡ false → (a ≡ true) × (b ≡ true)
both_true a b h = ground arith

-- What is normalized is spelled in the one way.
pub normalize-is_wallet :
    (lower : Char → Char) (address wallet : String)
    → normalize_wallet_target_address lower address ≡ some wallet
    → is_wallet wallet ≡ true
unfolding normalize_wallet_target_address
normalize-is_wallet lower address wallet h =
    let b = to_lower lower (prefixed (trim_space address)) in
    elim (Bool-cases (str_eq (trim_space address) "")) [
      | inl blank ↦ not_some (rw blank at h)
      | inr given ↦ elim (Bool-cases (not (size b == 42) || not (has_prefix "0x" b))) [
        | inl bad ↦ not_some (rw (given, bad) at h)
        | inr long ↦ elim (Bool-cases (all_hex (drop 2 b))) [
          | inr foreign ↦ not_some (rw (given, long, foreign) at h)
          | inl hex ↦
              let (size_is, prefix) = both_true (size b == 42) (has_prefix "0x" b) long in
              subst (λ x. is_wallet x ≡ true) (some_same (rw (given, long, hex) at h))
                (and_all _ _ _ size_is prefix hex)
        ]
      ]
    ]

pub count-update_same :
    {R : Type 0} (q p : R → Bool) (f : R → R) (rows : List R)
    → ((r : R) → q (f r) ≡ q r)
    → count q (update p f rows) ≡ count q rows
unfolding count update
count-update_same q p f [] same = refl
count-update_same q p f (r ∷ rs) same = ground (arith, same r, count-update_same q p f rs same)

pub count-update_gone :
    {R : Type 0} (q p : R → Bool) (f : R → R) (rows : List R)
    → ((r : R) → q (f r) ≡ false)
    → count q (update p f rows) ≤ count q rows
unfolding count update
count-update_gone q p f [] gone = omega arith
count-update_gone q p f (r ∷ rs) gone = ground (arith, gone r, count-update_gone q p f rs gone)

zero_plus : (n : ℕ) → n ≡ 0 → 0 + n ≡ 0
zero_plus n h = omega (arith, h)

true_not_false : {A : Type 0} → true ≡ false → A
true_not_false h = cc

clash_of :
    (user_id wallet : String) (new r : CryptoPolicyEntity)
    → active_for user_id wallet r ≡ true
    → active_for user_id wallet new ≡ true
    → clashes new r ≡ true
clash_of user_id wallet new r there here = ground (
  arith,
  there,
  here,
  str_eq_iff r.user_id user_id,
  str_eq_iff new.user_id user_id,
  str_eq_iff r.user_id new.user_id,
  str_eq_iff r.wallet_address wallet,
  str_eq_iff new.wallet_address wallet,
  str_eq_iff r.wallet_address new.wallet_address,
)

count-clashes :
    (user_id wallet : String) (new : CryptoPolicyEntity) (rows : List CryptoPolicyEntity)
    → exists (clashes new) rows ≡ false
    → active_for user_id wallet new ≡ true
    → count (active_for user_id wallet) rows ≡ 0
unfolding count exists
count-clashes user_id wallet new [] free here = refl
count-clashes user_id wallet new (r ∷ rs) free here =
    elim (Bool-cases (active_for user_id wallet r)) [
      | inl there ↦ true_not_false (rw (clash_of user_id wallet new r there here) at free)
      | inr elsewhere ↦ elim (Bool-cases (clashes new r)) [
        | inl clash ↦ true_not_false (rw clash at free)
        | inr apart ↦
            rw elsewhere (zero_plus _ (count-clashes user_id wallet new rs (rw apart at free) here))
      ]
    ]

insert_policy-one :
    (new : CryptoPolicyEntity) (rows : List CryptoPolicyEntity)
    → ((user_id wallet : String) → count (active_for user_id wallet) rows ≤ 1)
    → (user_id wallet : String) → count (active_for user_id wallet) (insert_policy new rows).1 ≤ 1
unfolding insert_policy
insert_policy-one new rows one user_id wallet = elim (Bool-cases (exists (clashes new) rows)) [
  | inl taken ↦ rw taken (one user_id wallet)
  | inr free ↦
      rw (free, count-append (active_for user_id wallet) rows new)
        (elim (Bool-cases (active_for user_id wallet new)) [
          | inl here ↦ rw (here, count-clashes user_id wallet new rows free here) (omega arith)
          | inr elsewhere ↦ rw elsewhere (ground (arith, one user_id wallet))
        ])
]

insert_policy-spelled :
    (new : CryptoPolicyEntity) (rows : List CryptoPolicyEntity)
    → is_wallet new.wallet_address ≡ true
    → count is_misspelled rows ≡ 0
    → count is_misspelled (insert_policy new rows).1 ≡ 0
unfolding insert_policy
insert_policy-spelled new rows spelled h = elim (Bool-cases (exists (clashes new) rows)) [
  | inl taken ↦ rw taken h
  | inr free ↦ rw (free, count-append is_misspelled rows new, spelled, h) refl
]

pub insert_policy-OneActive :
    (new : CryptoPolicyEntity) (rows : List CryptoPolicyEntity)
    → is_wallet new.wallet_address ≡ true
    → OneActive rows
    → OneActive (insert_policy new rows).1
insert_policy-OneActive new rows spelled h = record {
  one = insert_policy-one new rows h.one;
  spelled = insert_policy-spelled new rows spelled h.spelled;
}
