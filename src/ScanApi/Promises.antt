-- ===== src/ScanApi/Promises.antt =====
-- What every route of internal/scanapi promises, while nobody else writes to Redis and Postgres.
use cafe_persistence.Prelude.{
  ◌≡◌, ◌≢◌, refl, ◌∙◌, Bool, true, false, none, some, str_eq, err, Bool-cases, inl, inr, ◌⊎◌,
}
use cafe_persistence.Domain.{Uuid, nil_uuid}
use cafe_persistence.Db.{IsSerial}
use cafe_persistence.ScanApi.Text.{trim_space}
use cafe_persistence.ScanApi.Http.{
  Response, HttpRequest, Backend, Session, require_user_id, write_error, on_sql, on_redis,
  write_bad_request,
}
use cafe_persistence.ScanApi.Within.{Order, Within}
use cafe_persistence.ScanApi.ReadRoutes
use cafe_persistence.ScanApi.ReadRoutes.{AllowsReads}
use cafe_persistence.ScanApi.SameFor.{SameFor}
use cafe_persistence.ScanApi.Isolation.{
  spares, spares-AllowsReads, reserve_wallet_pending-Within,
  release_wallet_pending_reservation-Within, put_tls_pending-Within, release_pending_scan-Within,
  delete_wallet_scan-Within, delete_tls_scan-Within,
}
use cafe_persistence.ScanApi.PendingRoutes
use cafe_persistence.ScanApi.WalletRoutes
use cafe_persistence.ScanApi.TlsRoutes
use cafe_persistence.ScanApi.TransitionRoute
use cafe_persistence.ScanApi.Serve
use cafe_persistence.ScanApi.Serve.{
  Route, post_pending_wallet, get_pending_wallet, delete_pending_wallet, post_pending_tls,
  get_pending, delete_pending, get_wallet_scans, get_wallet, delete_wallet, get_tls_scans,
  get_tls_defaults, get_tls, delete_tls, get_ledger_usage, post_transition, serve,
}

-- the routes that only read
abbrev pub is_get : Route → Bool
is_get post_pending_wallet = false
is_get delete_pending_wallet = false
is_get post_pending_tls = false
is_get delete_pending = false
is_get delete_wallet = false
is_get delete_tls = false
is_get post_transition = false
is_get _ = true

-- the route of the transitions
abbrev pub is_transition : Route → Bool
is_transition post_transition = true
is_transition _ = false

module _ (b : Backend) (o : Order b) (redis : IsSerial b.redis) (sql : IsSerial b.sql)
    (reads : AllowsReads b o) (r : HttpRequest) where
  get-Within : (route : Route) → is_get route ≡ true → Within b o (serve b route r)
  get-Within post_pending_wallet h = cc
  get-Within get_pending_wallet h =
      ReadRoutes.get_wallet_pending_by_address-Within b o redis sql reads r
  get-Within delete_pending_wallet h = cc
  get-Within post_pending_tls h = cc
  get-Within get_pending h = ReadRoutes.get_pending_scan-Within b o redis sql reads r
  get-Within delete_pending h = cc
  get-Within get_wallet_scans h = ReadRoutes.list_wallet_scans-Within b o redis sql reads r
  get-Within get_wallet h = ReadRoutes.get_wallet_scan-Within b o redis sql reads r
  get-Within delete_wallet h = cc
  get-Within get_tls_scans h = ReadRoutes.list_tls_scans-Within b o redis sql reads r
  get-Within get_tls_defaults h = ReadRoutes.list_tls_default_scans-Within b o redis sql reads r
  get-Within get_tls h = ReadRoutes.get_tls_scan-Within b o redis sql reads r
  get-Within delete_tls h = cc
  get-Within post_transition h = cc
  get-Within get_ledger_usage h = ReadRoutes.get_scan_ledger_usage-Within b o redis sql reads r

abbrev unchanged : (b : Backend) → Order b
unchanged b = record {
  Rel = λ s s'.
      (b.redis.seen s'.redis ≡ b.redis.seen s.redis)
      × (b.sql.seen s'.sql ≡ b.sql.seen s.sql)
      × (s'.cache ≡ s.cache);
  same = λ s. (refl, refl, refl);
  then_also = λ s s' s'' h k. (k.0 ∙ h.0, k.1 ∙ h.1, k.2 ∙ h.2);
}

unchanged-AllowsReads : (b : Backend) → AllowsReads b (unchanged b)
unfolding on_redis on_sql
unchanged-AllowsReads b = record {
  redis = λ failed m keeps. record { at = λ s. (keeps.at s.redis, refl, refl) };
  sql = λ failed m keeps. record { at = λ s. (refl, keeps.at s.sql, refl) };
}

module _ (b : Backend) (redis : IsSerial b.redis) (sql : IsSerial b.sql) (r : HttpRequest) where
  written-Within :
      (user_id : Uuid)
      → b.codec.parse_uuid (trim_space r.header_user_id) ≢ some user_id
      → (route : Route) → is_get route ≡ false
      → is_transition route ≡ false
      → Within b (spares b sql user_id) (serve b route r)
  written-Within user_id other post_pending_wallet h k =
      reserve_wallet_pending-Within b sql user_id redis r
  written-Within user_id other get_pending_wallet h k = cc
  written-Within user_id other delete_pending_wallet h k =
      release_wallet_pending_reservation-Within b sql user_id redis r
  written-Within user_id other post_pending_tls h k = put_tls_pending-Within b sql user_id redis r
  written-Within user_id other get_pending h k = cc
  written-Within user_id other delete_pending h k =
      release_pending_scan-Within b sql user_id redis r
  written-Within user_id other get_wallet_scans h k = cc
  written-Within user_id other get_wallet h k = cc
  written-Within user_id other delete_wallet h k =
      delete_wallet_scan-Within b sql user_id redis r other
  written-Within user_id other get_tls_scans h k = cc
  written-Within user_id other get_tls_defaults h k = cc
  written-Within user_id other get_tls h k = cc
  written-Within user_id other delete_tls h k = delete_tls_scan-Within b sql user_id redis r other
  written-Within user_id other get_ledger_usage h k = cc
  written-Within user_id other post_transition h k = cc

  -- A GET route changes nothing in Redis, Postgres and the cache, whatever it answers.
  pub serve-is_get :
      (route : Route) (s : Session b)
      → is_get route ≡ true
      → let s' = (serve b route r s).1 in
        (b.redis.seen s'.redis ≡ b.redis.seen s.redis)
        × (b.sql.seen s'.sql ≡ b.sql.seen s.sql)
        × (s'.cache ≡ s.cache)
  serve-is_get route s h =
      (get-Within b (unchanged b) redis sql (unchanged-AllowsReads b) r route h).at s

  -- Whatever a route other than the transition answers, it leaves in scan_results and
  -- tls_scan_results the rows of each user that the header X-User-Id does not name as they were,
  -- deleted ones included, and it changes no other table.
  pub serve-SameFor :
      (route : Route) (s : Session b) (user_id : Uuid)
      → b.codec.parse_uuid (trim_space r.header_user_id) ≢ some user_id
      → is_transition route ≡ false
      → SameFor user_id (b.sql.seen s.sql) (b.sql.seen (serve b route r s).1.sql)
  serve-SameFor route s user_id other plain = elim (Bool-cases (is_get route)) [
    | inl get ↦
        (get-Within b (spares b sql user_id) redis sql (spares-AllowsReads b sql user_id) r route
            get).at
          s
    | inr writes ↦ (written-Within user_id other route writes plain).at s
  ]

module _ (b : Backend) (r : HttpRequest) where
  abbrev pub NamesNoUser : Type 0
  NamesNoUser =
      str_eq (trim_space r.header_user_id) "" ≡ true
      ⊎ (b.codec.parse_uuid (trim_space r.header_user_id) ≡ none
          ⊎ b.codec.parse_uuid (trim_space r.header_user_id) ≡ some nil_uuid)

  no_user :
      (s : Session b)
      → NamesNoUser
      → (response : Response) × (require_user_id b r s ≡ (err response, s))
        × (response.status ≡ 400)
  unfolding require_user_id write_bad_request write_error
  no_user s h = elim (Bool-cases (str_eq (trim_space r.header_user_id) "")) [
    | inl blank ↦ rw blank (_, refl, refl)
    | inr given ↦ elim h [
      | inl blank ↦ rw blank (_, refl, refl)
      | inr (inl bad) ↦ rw (given, bad) (_, refl, refl)
      | inr (inr nil) ↦ rw (given, nil) (_, refl, refl)
    ]
  ]

  stopped :
      (response : Response) (s : Session b)
      → require_user_id b r s ≡ (err response, s)
      → (route : Route) → serve b route r s ≡ (err response, s)
  unfolding PendingRoutes.reserve_wallet_pending PendingRoutes.get_wallet_pending_by_address
      PendingRoutes.release_wallet_pending_reservation PendingRoutes.put_tls_pending
      PendingRoutes.get_pending_scan PendingRoutes.release_pending_scan
      WalletRoutes.list_wallet_scans WalletRoutes.get_wallet_scan WalletRoutes.delete_wallet_scan
      TlsRoutes.list_tls_scans TlsRoutes.list_tls_default_scans TlsRoutes.get_tls_scan
      TlsRoutes.delete_tls_scan Serve.get_scan_ledger_usage TransitionRoute.apply_wallet_transition
  stopped response s h post_pending_wallet = rw h refl
  stopped response s h get_pending_wallet = rw h refl
  stopped response s h delete_pending_wallet = rw h refl
  stopped response s h post_pending_tls = rw h refl
  stopped response s h get_pending = rw h refl
  stopped response s h delete_pending = rw h refl
  stopped response s h get_wallet_scans = rw h refl
  stopped response s h get_wallet = rw h refl
  stopped response s h delete_wallet = rw h refl
  stopped response s h get_tls_scans = rw h refl
  stopped response s h get_tls_defaults = rw h refl
  stopped response s h get_tls = rw h refl
  stopped response s h delete_tls = rw h refl
  stopped response s h get_ledger_usage = rw h refl
  stopped response s h post_transition = rw h refl

  -- Every route answers a request whose header X-User-Id names no user, since it is blank, no UUID
  -- or the nil UUID, with status 400 at once: it calls no store.
  pub serve-require_user_id :
      (route : Route) (s : Session b)
      → NamesNoUser
      → (response : Response) × (serve b route r s ≡ (err response, s)) × (response.status ≡ 400)
  serve-require_user_id route s h =
      let (response, ends, status) = no_user s h in
      (response, stopped response s ends route, status)
