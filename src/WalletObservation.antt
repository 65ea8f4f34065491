-- ===== src/WalletObservation.antt =====
-- internal/walletobservation/export.go: the parts of a wallet observation that are computed;
-- `Export` puts the event together. The names of the wire contract, which another repository
-- declares, are a parameter.
pub mod ChainIds
pub mod Export
use cafe_persistence.Prelude.{
  ℕ, String, Bool, true, false, ◌||◌, Option, none, some, List, [], ◌∷◌, length, if◌then◌else◌, ltb,
  ◌==◌, str_eq, ℤ, pos, negsuc,
}
use cafe_persistence.Domain.{ScanResult}
use cafe_persistence.Domain.WalletKind.{
  derive_wallet_type_v1, wallet_type_eoa, wallet_type_smart_account, wallet_type_contract,
}
use cafe_persistence.ChainConfig.{same_id, has_name, chain_of}
use cafe_persistence.ScanApi.Text.{trim_space}

-- constants of cafe-contracts/observation/wallet/v01
pub record Contract : Type 0 where
  pub event_type_wallet_observed : String
  pub event_version : String
  pub producer_cafe_discovery : String
  pub subject_type_wallet : String
  pub posture_classical_only : String
  pub posture_hybrid : String
  pub posture_full_pq : String
  pub posture_unknown : String
  pub account_eoa : String
  pub account_erc4337_smart_account : String
  pub account_contract : String
  pub account_unknown : String
  pub algorithm_secp256k1_ecrecover : String

module _ (v01 : Contract) where
  unfoldable pub derive_current_pq_posture : Option ScanResult → String
  derive_current_pq_posture none = v01.posture_unknown
  derive_current_pq_posture (some scan) =
      if scan.nist_level == 1
      then v01.posture_classical_only
      else (if scan.nist_level == 2 || scan.nist_level == 3 || scan.nist_level == 4
          then v01.posture_hybrid
          else (if scan.nist_level == 5 then v01.posture_full_pq else v01.posture_unknown))

  account_kind_of : String → String
  account_kind_of w =
      if str_eq w wallet_type_eoa
      then v01.account_eoa
      else (if str_eq w wallet_type_smart_account
          then v01.account_erc4337_smart_account
          else (if str_eq w wallet_type_contract
              then v01.account_contract
              else v01.account_unknown))

  unfoldable pub map_account_kind : ScanResult → String
  unfolding account_kind_of
  map_account_kind scan =
      account_kind_of (derive_wallet_type_v1 scan.account_type scan.is_eoa scan.is_erc4337)

  unfoldable pub map_algorithm : ScanResult → String
  map_algorithm scan = if str_eq scan.algorithm "" then "" else v01.algorithm_secp256k1_ecrecover

abbrev pub less_id : ℤ → ℤ → Bool
less_id (pos m) (pos n) = ltb m n
less_id (pos m) (negsuc n) = false
less_id (negsuc m) (pos n) = true
less_id (negsuc m) (negsuc n) = ltb n m

-- `seen[id] = struct{}{}`; the keys are kept in the order that sort.Slice gives them.
unfoldable pub add_id : ℤ → List ℤ → List ℤ
add_id i [] = i ∷ []
add_id i (x ∷ xs) =
    let rest = add_id i xs in
    if same_id i x then x ∷ xs else (if less_id i x then i ∷ x ∷ xs else x ∷ rest)

abbrev pub add_found : Option ℤ → List ℤ → List ℤ
add_found none ids = ids
add_found (some i) ids = if same_id i (pos 0) then ids else add_id i ids

unfoldable pub seen_ids : List (String × ℤ) → List String → List ℤ
seen_ids chains [] = []
seen_ids chains (n ∷ networks) = add_found (chain_of n chains) (seen_ids chains networks)

unfoldable pub resolve_chain_ids : List String → List (String × ℤ) → List ℤ
unfolding seen_ids
resolve_chain_ids networks [] = []
resolve_chain_ids networks (c ∷ chains) = seen_ids (c ∷ chains) networks

-- the keys of `uniqNames`
unfoldable pub unique_names : List String → List String
unique_names [] = []
unique_names (n ∷ networks) =
    let rest = unique_names networks in
    let name = trim_space n in if str_eq name "" || has_name name rest then rest else name ∷ rest

unfoldable pub is_multichain : List ℤ → List String → Bool
unfolding unique_names
is_multichain chain_ids networks =
    ltb 1 (length chain_ids) || ltb 1 (length (unique_names networks))
