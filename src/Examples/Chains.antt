-- ===== src/Examples/Chains.antt =====
-- The theorems on chain ids at a concrete configuration.
use cafe_persistence.Prelude.{String, ◌≡◌, refl, some, List, [], ◌∷◌, inr, inl, ℤ, pos}
use cafe_persistence.ScanApi.Text.{trim_space}
use cafe_persistence.ChainConfig.{Blockchain, has_id, validate, chain_id_by_network, chain_of}
use cafe_persistence.ChainConfig.Validated.{valid_chains_found}
use cafe_persistence.WalletObservation.{add_id, resolve_chain_ids}
use cafe_persistence.WalletObservation.ChainIds.{
  Ascending, one_has, resolve_chain_ids-Ascending, has_id-resolve_chain_ids,
}

abbrev chain : String → ℤ → Blockchain
chain name chain_id = record { name = name; chain_id = chain_id }

abbrev config : List Blockchain
config = chain "polygon" (pos 137) ∷ chain "ethereum" (pos 1) ∷ []

abbrev observed : List String
observed = "polygon" ∷ "unknown" ∷ "ethereum" ∷ "polygon" ∷ []

resolves : resolve_chain_ids observed (chain_id_by_network config) ≡ pos 1 ∷ pos 137 ∷ []
unfolding resolve_chain_ids chain_id_by_network chain_of add_id
resolves = refl

valid_chains_found_example : chain_of "ethereum" (chain_id_by_network config) ≡ some (pos 1)
unfolding validate trim_space
valid_chains_found_example =
    valid_chains_found config (chain "ethereum" (pos 1)) refl (inr (inl refl))

resolve_chain_ids-Ascending_example :
    Ascending (resolve_chain_ids observed (chain_id_by_network config))
resolve_chain_ids-Ascending_example =
    resolve_chain_ids-Ascending observed (chain_id_by_network config)

has_id-resolve_chain_ids_example :
    has_id (pos 137) (resolve_chain_ids observed (chain_id_by_network config))
    ≡ one_has (pos 137) (chain_id_by_network config) observed
has_id-resolve_chain_ids_example =
    has_id-resolve_chain_ids (pos 137) observed (chain_id_by_network config)
