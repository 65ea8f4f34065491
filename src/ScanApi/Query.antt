-- ===== src/ScanApi/Query.antt =====
-- internal/scanapi/wallet_filter.go and parseBoolQuery of handler.go: how the query of a list is
-- read.
use cafe_persistence.Prelude.{
  ℕ, ◌+◌, ◌-◌, String, Bool, false, ◌||◌, Option, none, some, List, [], ◌∷◌, if◌then◌else◌, ltb,
  leb, str_eq, ℤ, pos, is_non_positive, pos_part, length,
}
use cafe_persistence.Domain.{ScanResultEntity}
use cafe_persistence.Db.Ordered.{skip, take}
use cafe_persistence.Scan.{success}
use cafe_persistence.ChainConfig.{Blockchain, chain_id_by_network, chain_of, same_id}
use cafe_persistence.ScanApi.Text.{trim_space, to_lower}
use cafe_persistence.ScanApi.Http.{Backend}

-- in[offset:end] of a Go slice
unfoldable pub paginate_wallet_scan_entities : {R : Type 0} → List R → ℕ → ℕ → List R
paginate_wallet_scan_entities rows limit offset =
    if leb (length rows) offset
    then []
    else (let end = offset + limit in
        let end' = if ltb (length rows) end then length rows else end in
        take (end' - offset) (skip offset rows))

module _ (b : Backend) where
  abbrev or_default : ℤ → Option ℤ → ℤ
  or_default default none = default
  or_default default (some v) = v

  abbrev number_of : ℤ → String → ℤ
  number_of default s = if str_eq s "" then default else or_default default (b.atoi s)

  abbrev pub clamp_limit : ℤ → ℕ
  clamp_limit limit =
      let n = if is_non_positive limit then 20 else pos_part limit in if ltb 100 n then 100 else n

  -- limit and offset
  unfoldable pub parse_pagination : String → String → ℕ × ℕ
  parse_pagination limit_str offset_str =
      (clamp_limit (number_of (pos 20) limit_str), pos_part (number_of (pos 0) offset_str))

  -- `none` is its error
  unfoldable pub parse_bool_query : String → Option Bool
  parse_bool_query raw =
      let s = trim_space raw in if str_eq s "" then some false else b.parse_bool s

  -- strings.ToUpper is `to_lower` with the table of the upper-case characters.
  unfoldable pub wallet_entity_is_completed : ScanResultEntity → Bool
  wallet_entity_is_completed e = str_eq (to_lower b.upper (trim_space e.status)) success

  abbrev or_nil : Option (List String) → List String
  or_nil none = []
  or_nil (some names) = names

  unfoldable pub parse_networks_from_entity : String → List String
  parse_networks_from_entity networks_json =
      if str_eq networks_json "" || str_eq networks_json "[]"
      then []
      else or_nil (b.decode_names networks_json)

  abbrev is_chain : ℤ → Option ℤ → Bool
  is_chain want none = false
  is_chain want (some cid) = same_id cid want

  abbrev pub some_network : ℤ → List (String × ℤ) → List String → Bool
  some_network want by_name [] = false
  some_network want by_name (n ∷ nets) =
      str_eq n (b.format_int want)
      || is_chain want (chain_of n by_name)
      || some_network want by_name nets

  abbrev of_config : ScanResultEntity → ℤ → Option (List Blockchain) → Bool
  of_config e want none = false
  of_config e want (some chains) =
      some_network want (chain_id_by_network chains) (parse_networks_from_entity e.networks)

  unfoldable pub wallet_entity_matches_chain_id : ScanResultEntity → ℤ → Bool
  unfolding parse_networks_from_entity
  wallet_entity_matches_chain_id e want = of_config e want b.chains
