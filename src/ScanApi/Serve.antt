-- ===== src/ScanApi/Serve.antt =====
-- internal/scanapi/auth.go, server.go and the ledger of handler.go: a route with its handler behind
-- the bearer token. net/http finds the route.
use cafe_persistence.Prelude.{
  String, Bool, not, ◌&&◌, ◌||◌, [], ◌∷◌, if◌then◌else◌, str_eq, Try, ok, err, pure, raise, ◌>>=◌,
  ◌>>◌,
}
use cafe_persistence.Domain.{kind_wallet, kind_endpoint}
use cafe_persistence.Ledger.{
  count_success_usage, count_in_flight_scans, count_visible_success_scans,
}
use cafe_persistence.ScanApi.Text.{trim_space, to_lower, drop, has_prefix}
use cafe_persistence.ScanApi.Http.{
  text, number, object, Response, HttpRequest, Backend, Handler, failure, write_json,
  write_service_unavailable, write_bad_request, on_sql, guard, require_user_id,
}
use cafe_persistence.ScanApi.PendingRoutes.{
  reserve_wallet_pending, get_wallet_pending_by_address, release_wallet_pending_reservation,
  put_tls_pending, get_pending_scan, release_pending_scan,
}
use cafe_persistence.ScanApi.WalletRoutes.{list_wallet_scans, get_wallet_scan, delete_wallet_scan}
use cafe_persistence.ScanApi.TlsRoutes.{
  list_tls_scans, list_tls_default_scans, get_tls_scan, delete_tls_scan,
}
use cafe_persistence.ScanApi.TransitionRoute.{apply_wallet_transition}

module _ (b : Backend) (r : HttpRequest) where
  abbrev pub unavailable : Response
  unavailable = write_service_unavailable r "ledger store is temporarily unavailable"

  unfoldable pub get_scan_ledger_usage : Handler b Response
  get_scan_ledger_usage = do
    user_id ← require_user_id b r
    guard b b.has_ledger unavailable
    let kind = trim_space r.query_kind
    guard b (not (str_eq kind "")) (write_bad_request r "kind query parameter is required")
    guard b (str_eq kind kind_wallet || str_eq kind kind_endpoint)
        (write_bad_request r "kind must be wallet or endpoint")
    success_count ← on_sql b unavailable (count_success_usage b.sql user_id kind)
    in_flight ← on_sql b unavailable (count_in_flight_scans b.sql user_id kind)
    visible_success ← on_sql b unavailable (count_visible_success_scans b.sql user_id kind)
    pure (
        write_json 200 (
          object (
            ("user_id", text (b.codec.uuid_text user_id))
            ∷ ("kind", text kind)
            ∷ ("success_count", number success_count)
            ∷ ("in_flight_count", number in_flight)
            ∷ ("visible_success_count", number visible_success)
            ∷ [])))

-- the routes of RegisterRoutes
pub data Route : Type 0 where
  post_pending_wallet get_pending_wallet delete_pending_wallet post_pending_tls get_pending : Route
  delete_pending get_wallet_scans get_wallet delete_wallet get_tls_scans get_tls_defaults get_tls :
      Route
  delete_tls get_ledger_usage post_transition : Route

abbrev pub serve : (b : Backend) → Route → HttpRequest → Handler b Response
serve b post_pending_wallet r = reserve_wallet_pending b r
serve b get_pending_wallet r = get_wallet_pending_by_address b r
serve b delete_pending_wallet r = release_wallet_pending_reservation b r
serve b post_pending_tls r = put_tls_pending b r
serve b get_pending r = get_pending_scan b r
serve b delete_pending r = release_pending_scan b r
serve b get_wallet_scans r = list_wallet_scans b r
serve b get_wallet r = get_wallet_scan b r
serve b delete_wallet r = delete_wallet_scan b r
serve b get_tls_scans r = list_tls_scans b r
serve b get_tls_defaults r = list_tls_default_scans b r
serve b get_tls r = get_tls_scan b r
serve b delete_tls r = delete_tls_scan b r
serve b get_ledger_usage r = get_scan_ledger_usage b r
serve b post_transition r = apply_wallet_transition b r

-- the response that is written, early or not
abbrev pub written : Try Response Response → Response
written (ok response) = response
written (err response) = response

module _ (b : Backend) (expected_token : String) where
  abbrev pub refused : HttpRequest → Response
  refused r =
      failure 401 (trim_space r.header_request_id) "service_auth_required"
        "Valid service bearer token is required."

  -- the three guards of the middleware
  unfoldable pub is_authorized : HttpRequest → Bool
  is_authorized r =
      let expected = trim_space expected_token in
      let header = trim_space r.header_authorization in
      let raw = trim_space (drop 7 header) in
      has_prefix "bearer " (to_lower b.codec.lower header)
      && (not (str_eq raw "" || str_eq expected "") && str_eq raw expected)

  unfoldable pub service_auth_middleware :
      (HttpRequest → Handler b Response) → HttpRequest → Handler b Response
  unfolding is_authorized
  service_auth_middleware next r = if is_authorized r then next r else raise (refused r)
