-- ===== src/Domain/WalletKind.antt =====
-- internal/domain/wallet_kind.go: one account kind from the scanner's overlapping fields.
use cafe_persistence.Prelude.{
  String, ◌≡◌, refl, ap, ◌⊎◌, inl, inr, Bool, true, false, ◌||◌, Option, none, some, arith,
  if◌then◌else◌, str_eq,
}
use cafe_persistence.Domain.{
  ScanResult, account_type_eoa, account_type_aa, account_type_contract, account_type_unknown,
}

abbrev pub wallet_type_eoa : String
wallet_type_eoa = "eoa"

abbrev pub wallet_type_smart_account : String
wallet_type_smart_account = "smart_account"

abbrev pub wallet_type_contract : String
wallet_type_contract = "contract"

abbrev pub wallet_type_unknown : String
wallet_type_unknown = "unknown"

unfoldable pub derive_wallet_type_v1 : String → Bool → Bool → String
derive_wallet_type_v1 t is_eoa is_4337 =
    if is_4337 || str_eq t account_type_aa
    then wallet_type_smart_account
    else (if str_eq t account_type_contract
        then wallet_type_contract
        else (if is_eoa || str_eq t account_type_eoa then wallet_type_eoa else wallet_type_unknown))

normalized : String → String × Bool × Bool × String
normalized w =
    if str_eq w wallet_type_smart_account
    then (account_type_aa, false, true, wallet_type_smart_account)
    else (if str_eq w wallet_type_contract
        then (account_type_contract, false, false, wallet_type_contract)
        else (if str_eq w wallet_type_eoa
            then (account_type_eoa, true, false, wallet_type_eoa)
            else (account_type_unknown, false, false, wallet_type_unknown)))

unfoldable pub normalize_wallet_account_kind : String → Bool → Bool → String × Bool × Bool × String
unfolding derive_wallet_type_v1 normalized
normalize_wallet_account_kind t is_eoa is_4337 = normalized (derive_wallet_type_v1 t is_eoa is_4337)

unfoldable pub normalize_scan_result_wallet_kind : Option ScanResult → Option ScanResult
unfolding normalize_wallet_account_kind
normalize_scan_result_wallet_kind none = none
normalize_scan_result_wallet_kind (some r) =
    let k = normalize_wallet_account_kind r.account_type r.is_eoa r.is_erc4337 in
    some (record r { account_type = k.0; is_eoa = k.1; is_erc4337 = k.2 })

pub derive_wallet_type_v1-cases :
    (t : String) (is_eoa is_4337 : Bool)
    → let w = derive_wallet_type_v1 t is_eoa is_4337 in
      (w ≡ wallet_type_smart_account)
      ⊎ ((w ≡ wallet_type_contract) ⊎ ((w ≡ wallet_type_eoa) ⊎ (w ≡ wallet_type_unknown)))
unfolding derive_wallet_type_v1
derive_wallet_type_v1-cases t is_eoa is_4337 = ground arith

abbrev derived_again : String → String
derived_again w = let k = normalized w in derive_wallet_type_v1 k.0 k.1 k.2

normalized_stable :
    (w : String)
    → (w ≡ wallet_type_smart_account)
      ⊎ ((w ≡ wallet_type_contract) ⊎ ((w ≡ wallet_type_eoa) ⊎ (w ≡ wallet_type_unknown)))
    → (derived_again w ≡ w) × ((normalized w).3 ≡ w)
unfolding normalized derive_wallet_type_v1
normalized_stable w (inl e) = rw e (refl, refl)
normalized_stable w (inr (inl e)) = rw e (refl, refl)
normalized_stable w (inr (inr (inl e))) = rw e (refl, refl)
normalized_stable w (inr (inr (inr e))) = rw e (refl, refl)

-- A normalized kind is read back as the wallet type that it stands for, and normalizing it again
-- changes nothing.
pub normalize_wallet_account_kind_stable :
    (t : String) (is_eoa is_4337 : Bool)
    → let k = normalize_wallet_account_kind t is_eoa is_4337 in
      (derive_wallet_type_v1 k.0 k.1 k.2 ≡ derive_wallet_type_v1 t is_eoa is_4337)
      × (k.3 ≡ derive_wallet_type_v1 t is_eoa is_4337)
      × (normalize_wallet_account_kind k.0 k.1 k.2 ≡ k)
normalize_wallet_account_kind_stable t is_eoa is_4337 =
    let w = derive_wallet_type_v1 t is_eoa is_4337 in
    let (again, kept) = normalized_stable w (derive_wallet_type_v1-cases t is_eoa is_4337) in
    unfold normalize_wallet_account_kind in (again, kept, ap normalized again)
