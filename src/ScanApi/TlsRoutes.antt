-- ===== src/ScanApi/TlsRoutes.antt =====
-- internal/scanapi/handler.go: the routes of the TLS scans.
use cafe_persistence.Prelude.{
  String, not, ◌&&◌, Option, none, some, if◌then◌else◌, str_eq, pure, ◌>>=◌, ◌>>◌, map, length,
}
use cafe_persistence.Domain.{Uuid}
use cafe_persistence.Domain.Tls.{TlsScanResultEntity}
use cafe_persistence.ScanResults.{
  find_owned_user_tls_scan_by_id, find_default_tls_scan_by_id, delete_owned_user_tls_scan,
  list_owner_user_tls_scans_discovery_v1, find_all_default,
}
use cafe_persistence.ScanApi.Http.{
  object, page, Response, HttpRequest, Backend, Handler, write_json, no_content,
  write_service_unavailable, write_not_found, on_sql, on_cache, guard, found, require_user_id,
  parse_scan_id_path, delete_tls_scan_key,
}
use cafe_persistence.ScanApi.Query.{parse_pagination}
use cafe_persistence.ScanApi.Rows.{tls_scan_row_json}

module _ (b : Backend) (r : HttpRequest) where
  abbrev pub unavailable : Response
  unavailable = write_service_unavailable r "tls scan store is temporarily unavailable"

  abbrev pub owner : Handler b Uuid
  owner = do user_id ← require_user_id b r; guard b b.has_tls_scans unavailable; pure user_id

  unfoldable pub list_tls_scans : Handler b Response
  list_tls_scans = do
    user_id ← owner
    let window = parse_pagination b r.query_limit r.query_offset
    answer ←
        on_sql b unavailable
          (list_owner_user_tls_scans_discovery_v1 b.sql user_id window.0 window.1)
    pure (write_json 200 (page (map (tls_scan_row_json b) answer.0) answer.1 window.0 window.1))

  unfoldable pub list_tls_default_scans : Handler b Response
  list_tls_default_scans = do
    owner
    rows ← on_sql b unavailable (find_all_default b.sql b.by_created_at)
    pure (write_json 200 (page (map (tls_scan_row_json b) rows) (length rows) (length rows) 0))

  -- the second read, where the owner has no such scan
  abbrev pub or_default_scan :
      Uuid → Option TlsScanResultEntity → Handler b (Option TlsScanResultEntity)
  or_default_scan scan_id none = on_sql b unavailable (find_default_tls_scan_by_id b.sql scan_id)
  or_default_scan scan_id (some ent) = pure (some ent)

  unfoldable pub get_tls_scan : Handler b Response
  get_tls_scan = do
    user_id ← owner
    scan_id ← parse_scan_id_path b r
    ent ← on_sql b unavailable (find_owned_user_tls_scan_by_id b.sql user_id scan_id)
    ent ← or_default_scan scan_id ent
    ent ← found b (write_not_found r "scan not found") ent
    pure (write_json 200 (object (tls_scan_row_json b ent)))

  unfoldable pub drop_cached : Uuid → String → Handler b (Unit {0})
  drop_cached user_id url =
      if b.has_cache && not (str_eq url "")
      then on_cache b (delete_tls_scan_key b user_id url)
      else pure tt

  unfoldable pub delete_tls_scan : Handler b Response
  delete_tls_scan = do
    user_id ← owner
    scan_id ← parse_scan_id_path b r
    ent ← on_sql b unavailable (find_owned_user_tls_scan_by_id b.sql user_id scan_id)
    ent ← found b (write_not_found r "scan not found") ent
    deleted ← on_sql b unavailable (delete_owned_user_tls_scan b.sql user_id scan_id)
    guard b deleted (write_not_found r "scan not found")
    drop_cached user_id ent.url
    pure no_content
