-- ===== src/ScanApi/PendingRoutes.antt =====
-- internal/scanapi/handler.go: the routes of the pending scans.
use cafe_persistence.Prelude.{
  ℕ, String, Bool, true, false, not, ◌||◌, Option, none, some, if◌then◌else◌, ◌==◌, str_eq, ok,
  pure, raise, ◌>>=◌, ◌>>◌,
}
use cafe_persistence.Domain.{Uuid, nil_uuid}
use cafe_persistence.Pending.{
  family_wallet, PendingRecord, put, put_wallet, get, get_wallet_by_owner_address,
  delete_wallet_reservation, delete_pending,
}
use cafe_persistence.ScanApi.Text.{trim_space}
use cafe_persistence.ScanApi.Http.{
  object, reservation, Response, HttpRequest, Backend, Handler, failure, write_json, no_content,
  write_service_unavailable, write_bad_request, write_not_found, on_redis, guard, found,
  normalized_address, require_user_id, parse_scan_id_path,
}
use cafe_persistence.ScanApi.Rows.{pending_record_json}

abbrev pub family_tls : String
family_tls = "tls"

abbrev or_now : ℕ → Option ℕ → ℕ
or_now now none = now
or_now now (some t) = t

module _ (b : Backend) (r : HttpRequest) where
  abbrev pub unavailable : Response
  unavailable = write_service_unavailable r "pending scan store is temporarily unavailable"

  abbrev pub owner : Handler b Uuid
  owner = do user_id ← require_user_id b r; guard b b.has_pending unavailable; pure user_id

  unfoldable pub now : Handler b ℕ
  now s = (ok (b.redis.clock s.redis).now, s)

  abbrev conflict : Response
  conflict =
      failure 409 "" "SCAN_IN_PROGRESS" "A wallet scan is already in progress for this target."

  abbrev pub answer_reserved : PendingRecord → Bool → Handler b Response
  answer_reserved rec false = raise conflict
  answer_reserved rec true = pure (write_json 201 (reservation (pending_record_json b rec)))

  unfoldable pub reserve_wallet_pending : Handler b Response
  reserve_wallet_pending = do
    user_id ← owner
    req ← found b (write_bad_request r "invalid request body") r.reserve_body
    guard b (not (req.scan_id == nil_uuid || str_eq (trim_space req.address) ""))
        (write_bad_request r "scan_id and address are required")
    t ← now
    let rec : PendingRecord = record {
      scan_id = req.scan_id;
      user_id = user_id;
      family = family_wallet;
      address = normalized_address b req.address;
      endpoint = "";
      created_at = or_now t req.created_at;
    }
    reserved ← on_redis b unavailable (put_wallet b.codec b.redis (some rec))
    answer_reserved rec reserved

  unfoldable pub get_wallet_pending_by_address : Handler b Response
  get_wallet_pending_by_address = do
    user_id ← owner
    let addr = normalized_address b r.query_address
    guard b (not (str_eq addr "")) (write_bad_request r "address query parameter is required")
    rec ← on_redis b unavailable (get_wallet_by_owner_address b.codec b.redis user_id addr)
    rec ← found b (write_not_found r "pending scan not found") rec
    pure (write_json 200 (object (pending_record_json b rec)))

  unfoldable pub release_wallet_pending_reservation : Handler b Response
  release_wallet_pending_reservation = do
    user_id ← owner
    let addr = normalized_address b r.query_address
    let scan_id_str = trim_space r.query_scan_id
    guard b (not (str_eq addr "" || str_eq scan_id_str ""))
        (write_bad_request r "address and scan_id query parameters are required")
    scan_id ←
        found b (write_bad_request r "scan_id must be a UUID") (b.codec.parse_uuid scan_id_str)
    on_redis b unavailable (delete_wallet_reservation b.codec b.redis user_id addr scan_id)
    pure no_content

  unfoldable pub put_tls_pending : Handler b Response
  put_tls_pending = do
    user_id ← owner
    req ← found b (write_bad_request r "invalid request body") r.tls_body
    guard b (not (req.scan_id == nil_uuid || str_eq (trim_space req.endpoint) ""))
        (write_bad_request r "scan_id and endpoint are required")
    t ← now
    let rec : PendingRecord = record {
      scan_id = req.scan_id;
      user_id = user_id;
      family = family_tls;
      address = "";
      endpoint = trim_space req.endpoint;
      created_at = or_now t req.created_at;
    }
    on_redis b unavailable (put b.codec b.redis (some rec))
    pure (write_json 201 (object (pending_record_json b rec)))

  abbrev of_owner : Uuid → Option PendingRecord → Option PendingRecord
  of_owner user_id none = none
  of_owner user_id (some rec) = if rec.user_id == user_id then some rec else none

  unfoldable pub get_pending_scan : Handler b Response
  get_pending_scan = do
    user_id ← owner
    scan_id ← parse_scan_id_path b r
    rec ← on_redis b unavailable (get b.codec b.redis scan_id)
    rec ← found b (write_not_found r "pending scan not found") (of_owner user_id rec)
    pure (write_json 200 (object (pending_record_json b rec)))

  unfoldable pub release_pending_scan : Handler b Response
  release_pending_scan = do
    owner
    scan_id ← parse_scan_id_path b r
    on_redis b unavailable (delete_pending b.codec b.redis scan_id)
    pure no_content
