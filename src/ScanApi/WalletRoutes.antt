-- ===== src/ScanApi/WalletRoutes.antt =====
-- internal/scanapi/handler.go: the routes of the wallet scans.
use cafe_persistence.Prelude.{
  ℕ, String, Bool, true, false, not, ◌&&◌, Option, none, some, List, [], ◌∷◌, if◌then◌else◌, str_eq,
  ℤ, is_non_positive, pure, ◌>>=◌, ◌>>◌, map, length,
}
use cafe_persistence.Domain.{Uuid, ScanResultEntity}
use cafe_persistence.Db.Table.{first}
use cafe_persistence.Db.Ordered.{select}
use cafe_persistence.ScanResults.{
  find_owned_wallet_scan_by_id, delete_owned_wallet_scan, list_owner_wallet_scans_discovery_v1,
  list_owner_wallet_scans_by_address,
}
use cafe_persistence.ScanApi.Text.{trim_space}
use cafe_persistence.ScanApi.Http.{
  object, page, Response, HttpRequest, Backend, Handler, write_json, no_content,
  write_service_unavailable, write_bad_request, write_not_found, on_sql, on_cache, guard, found,
  normalized_address, require_user_id, parse_scan_id_path, delete_wallet_scan_key,
}
use cafe_persistence.ScanApi.Query.{
  paginate_wallet_scan_entities, parse_pagination, parse_bool_query, wallet_entity_is_completed,
  wallet_entity_matches_chain_id,
}
use cafe_persistence.ScanApi.Rows.{wallet_scan_row_json}

module _ (b : Backend) (r : HttpRequest) where
  abbrev pub unavailable : Response
  unavailable = write_service_unavailable r "wallet scan store is temporarily unavailable"

  abbrev pub owner : Handler b Uuid
  owner = do user_id ← require_user_id b r; guard b b.has_wallet_scans unavailable; pure user_id

  abbrev pub positive : Option ℤ → Option ℤ
  positive none = none
  positive (some v) = if is_non_positive v then none else some v

  -- the chain id, where one is asked for
  unfoldable pub chain_id_of : String → Handler b (Option ℤ)
  chain_id_of chain_q = if str_eq chain_q "" then pure none else (do
    v ←
        found b (write_bad_request r "chain_id must be a positive integer")
          (positive (b.parse_int chain_q))
    pure (some v))

  abbrev on_chain : Option ℤ → ScanResultEntity → Bool
  on_chain none e = true
  on_chain (some v) e = wallet_entity_matches_chain_id b e v

  abbrev one_row : Option ScanResultEntity → List ScanResultEntity × ℕ
  one_row none = ([], 0)
  one_row (some e) = (e ∷ [], 1)

  abbrev pub all_of : Uuid → String → Handler b (List ScanResultEntity)
  all_of user_id address =
      on_sql b unavailable (list_owner_wallet_scans_by_address b.casing b.sql user_id address)

  abbrev pub filtered : Uuid → String → Option ℤ → ℕ × ℕ → Handler b (List ScanResultEntity × ℕ)
  filtered user_id address none (limit, offset) =
      on_sql b unavailable
        (list_owner_wallet_scans_discovery_v1 b.casing b.sql user_id address limit offset)
  filtered user_id address (some v) (limit, offset) = do
    all ← all_of user_id address
    let matching = select (λ e. wallet_entity_matches_chain_id b e v) all
    pure (paginate_wallet_scan_entities matching limit offset, length matching)

  -- entities and total; a chain id is only given with an address
  unfoldable pub listed :
      Uuid → String → Bool → Option ℤ → ℕ × ℕ → Handler b (List ScanResultEntity × ℕ)
  listed user_id address true chain_id window = do
    all ← all_of user_id address
    pure (one_row (first (λ e. wallet_entity_is_completed b e && on_chain chain_id e) all))
  listed user_id address false chain_id window = filtered user_id address chain_id window

  unfoldable pub list_wallet_scans : Handler b Response
  unfolding listed
  list_wallet_scans = do
    user_id ← owner
    let window = parse_pagination b r.query_limit r.query_offset
    let addr_q = trim_space r.query_address
    let chain_q = trim_space r.query_chain_id
    latest ←
        found b (write_bad_request r "latest must be a boolean") (parse_bool_query b r.query_latest)
    guard b (not (latest && str_eq addr_q "")) (write_bad_request r "latest requires address")
    guard b (not (not (str_eq chain_q "") && str_eq addr_q ""))
        (write_bad_request r "chain_id requires address")
    chain_id ← chain_id_of chain_q
    answer ← listed user_id (normalized_address b addr_q) latest chain_id window
    pure (write_json 200 (page (map (wallet_scan_row_json b) answer.0) answer.1 window.0 window.1))

  abbrev pub find_owned : Uuid → Uuid → Handler b ScanResultEntity
  find_owned user_id scan_id = do
    ent ← on_sql b unavailable (find_owned_wallet_scan_by_id b.sql user_id scan_id)
    found b (write_not_found r "scan not found") ent

  unfoldable pub get_wallet_scan : Handler b Response
  get_wallet_scan = do
    user_id ← owner
    scan_id ← parse_scan_id_path b r
    ent ← find_owned user_id scan_id
    pure (write_json 200 (object (wallet_scan_row_json b ent)))

  abbrev pub is_nil : List ScanResultEntity → Bool
  is_nil [] = true
  is_nil (e ∷ es) = false

  -- the cache of an address goes with the last of its scans
  unfoldable pub drop_cached : Uuid → String → Handler b (Unit {0})
  drop_cached user_id address =
      if b.has_cache
      then (do
        remaining ← all_of user_id address
        if is_nil remaining then on_cache b (delete_wallet_scan_key b user_id address) else pure tt)
      else pure tt

  unfoldable pub delete_wallet_scan : Handler b Response
  delete_wallet_scan = do
    user_id ← owner
    scan_id ← parse_scan_id_path b r
    ent ← find_owned user_id scan_id
    deleted ← on_sql b unavailable (delete_owned_wallet_scan b.sql user_id scan_id)
    guard b deleted (write_not_found r "scan not found")
    drop_cached user_id ent.address
    pure no_content
