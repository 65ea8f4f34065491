-- ===== src/ScanApi/Isolation.antt =====
-- The routes of the scan API that write, and the rows of the users who did not ask.
use cafe_persistence.Prelude.{
  String, ◌≡◌, ◌≢◌, ap, ◌∙◌, Bool, true, false, not, ◌&&◌, some, ◌==◌, str_eq, ==_iff, Try, ok,
  Exec, Bool-cases, inl, inr,
}
use cafe_persistence.Domain.{Uuid}
use cafe_persistence.Db.{Error, Moment, IsSerial, statement}
use cafe_persistence.Tables.{Tables}
use cafe_persistence.Pending.{PendingRecord}
use cafe_persistence.ScanApi.Text.{trim_space}
use cafe_persistence.ScanApi.Http.{
  require_user_id, Response, HttpRequest, Backend, Session, on_sql, on_redis, on_cache,
}
use cafe_persistence.ScanApi.Within.{
  Order, Within, bind-Within, pure-Within, guard-Within, found-Within, if-Within,
  parse_scan_id_path-Within, require_user_id-parse_uuid, guarded_user,
}
use cafe_persistence.ScanApi.WalletRoutes
use cafe_persistence.ScanResults.{delete_owned_user_tls_scan, delete_owned_wallet_scan}
use cafe_persistence.ScanApi.PendingRoutes
use cafe_persistence.ScanApi.TlsRoutes
use cafe_persistence.ScanApi.ReadRoutes.{
  AllowsReads, pending_owner-Within, wallet_owner-Within, tls_owner-Within, all_of-Within,
  find_owned-Within, find_own_tls-Within,
}
use cafe_persistence.ScanApi.SameFor.{
  SameFor, SameFor-refl, SameFor-trans, Spares, statement-SameFor, wallet-Spares, tls-Spares,
}

module _ (b : Backend) (serial : IsSerial b.sql) (user_id : Uuid) where
  abbrev pub spares : Order b
  spares = record {
    Rel = λ s s'. SameFor user_id (b.sql.seen s.sql) (b.sql.seen s'.sql);
    same = λ s. SameFor-refl user_id (b.sql.seen s.sql);
    then_also = λ s s' s''.
        SameFor-trans user_id (b.sql.seen s.sql) (b.sql.seen s'.sql) (b.sql.seen s''.sql);
  }

  pub spares-AllowsReads : AllowsReads b spares
  unfolding on_redis on_sql
  spares-AllowsReads = record {
    redis = λ failed m keeps. record { at = λ s. SameFor-refl user_id (b.sql.seen s.sql) };
    sql = λ failed m keeps. record {
      at = λ s. rw (keeps.at s.sql) (SameFor-refl user_id (b.sql.seen s.sql));
    };
  }

  -- whatever is done to Redis
  redis-Within :
      {A : Type 0} (failed : Response) (m : Exec b.redis.Conn Error A)
      → Within b spares (on_redis b failed m)
  unfolding on_redis
  redis-Within failed m = record { at = λ s. SameFor-refl user_id (b.sql.seen s.sql) }

  cache-Within : (m : Exec b.cache.Conn Error (Unit {0})) → Within b spares (on_cache b m)
  unfolding on_cache
  cache-Within m = record { at = λ s. SameFor-refl user_id (b.sql.seen s.sql) }

  sql-Within :
      {A : Type 0} (failed : Response) (f : Moment → Tables → Try Error A × Tables)
      → Spares user_id f
      → Within b spares (on_sql b failed (statement b.sql f))
  unfolding on_sql
  sql-Within failed f h = record { at = λ s. statement-SameFor user_id b.sql f serial h s.sql }

  now-Within : (r : HttpRequest) → Within b spares (PendingRoutes.now b r)
  unfolding PendingRoutes.now
  now-Within r = record { at = λ s. SameFor-refl user_id (b.sql.seen s.sql) }

  answer_reserved-Within :
      (r : HttpRequest) (rec : PendingRecord) (reserved : Bool)
      → Within b spares (PendingRoutes.answer_reserved b r rec reserved)
  answer_reserved-Within r rec true = record { at = λ s. SameFor-refl user_id (b.sql.seen s.sql) }
  answer_reserved-Within r rec false = record { at = λ s. SameFor-refl user_id (b.sql.seen s.sql) }

  -- a user other than the one that the header names
  other_than :
      (r : HttpRequest) (u : Uuid)
      → b.codec.parse_uuid (trim_space r.header_user_id) ≡ some u
      → b.codec.parse_uuid (trim_space r.header_user_id) ≢ some user_id
      → (u == user_id) ≡ false
  other_than r u is not_user = elim (Bool-cases (u == user_id)) [
    | inl same ↦ absurd (not_user (is ∙ ap some ((==_iff u user_id).0 same)))
    | inr other ↦ other
  ]

  module _ (redis : IsSerial b.redis) (r : HttpRequest) where
    pub reserve_wallet_pending-Within : Within b spares (PendingRoutes.reserve_wallet_pending b r)
    unfolding PendingRoutes.reserve_wallet_pending
    reserve_wallet_pending-Within =
        bind-Within b spares (PendingRoutes.owner b r)
          (pending_owner-Within b spares redis serial spares-AllowsReads r)
          λ u e. bind-Within b spares _ (found-Within b spares _ _) λ req e.
            bind-Within b spares _ (guard-Within b spares _ _) λ h e.
              bind-Within b spares (PendingRoutes.now b r) (now-Within r) λ t e.
                bind-Within b spares _ (redis-Within _ _)
                  λ reserved e. answer_reserved-Within r _ reserved

    pub release_wallet_pending_reservation-Within :
        Within b spares (PendingRoutes.release_wallet_pending_reservation b r)
    unfolding PendingRoutes.release_wallet_pending_reservation
    release_wallet_pending_reservation-Within =
        bind-Within b spares (PendingRoutes.owner b r)
          (pending_owner-Within b spares redis serial spares-AllowsReads r)
          λ u e. bind-Within b spares _ (guard-Within b spares _ _) λ h e.
            bind-Within b spares _ (found-Within b spares _ _)
              λ id e. bind-Within b spares _ (redis-Within _ _) λ h e. pure-Within b spares _

    pub put_tls_pending-Within : Within b spares (PendingRoutes.put_tls_pending b r)
    unfolding PendingRoutes.put_tls_pending
    put_tls_pending-Within =
        bind-Within b spares (PendingRoutes.owner b r)
          (pending_owner-Within b spares redis serial spares-AllowsReads r)
          λ u e. bind-Within b spares _ (found-Within b spares _ _) λ req e.
            bind-Within b spares _ (guard-Within b spares _ _) λ h e.
              bind-Within b spares (PendingRoutes.now b r) (now-Within r)
                λ t e. bind-Within b spares _ (redis-Within _ _) λ h e. pure-Within b spares _

    pub release_pending_scan-Within : Within b spares (PendingRoutes.release_pending_scan b r)
    unfolding PendingRoutes.release_pending_scan
    release_pending_scan-Within =
        bind-Within b spares (PendingRoutes.owner b r)
          (pending_owner-Within b spares redis serial spares-AllowsReads r)
          λ u e.
            bind-Within b spares _ (parse_scan_id_path-Within b spares r)
              λ id e. bind-Within b spares _ (redis-Within _ _) λ h e. pure-Within b spares _

    module _ (other : b.codec.parse_uuid (trim_space r.header_user_id) ≢ some user_id) where
      wallet_owner-other :
          (u : Uuid)
          → ((s : Session b) × ((WalletRoutes.owner b r s).0 ≡ ok u))
          → (u == user_id) ≡ false
      wallet_owner-other u (s, e) =
          other_than r u
            (require_user_id-parse_uuid b r s u (
              guarded_user b b.has_wallet_scans (WalletRoutes.unavailable b r)
                (require_user_id b r s).0 (require_user_id b r s).1 u e))
            other

      tls_owner-other :
          (u : Uuid)
          → ((s : Session b) × ((TlsRoutes.owner b r s).0 ≡ ok u))
          → (u == user_id) ≡ false
      tls_owner-other u (s, e) =
          other_than r u
            (require_user_id-parse_uuid b r s u (
              guarded_user b b.has_tls_scans (TlsRoutes.unavailable b r) (require_user_id b r s).0
                (require_user_id b r s).1 u e))
            other

      delete_owned_wallet-Within :
          (u id : Uuid)
          → (u == user_id) ≡ false
          → Within b spares
              (on_sql b (WalletRoutes.unavailable b r) (delete_owned_wallet_scan b.sql u id))
      unfolding delete_owned_wallet_scan
      delete_owned_wallet-Within u id apart = sql-Within _ _ (wallet-Spares user_id u id apart)

      delete_owned_tls-Within :
          (u id : Uuid)
          → (u == user_id) ≡ false
          → Within b spares
              (on_sql b (TlsRoutes.unavailable b r) (delete_owned_user_tls_scan b.sql u id))
      unfolding delete_owned_user_tls_scan
      delete_owned_tls-Within u id apart = sql-Within _ _ (tls-Spares user_id u id apart)

      drop_wallet-Within :
          (u : Uuid) (a : String) → Within b spares (WalletRoutes.drop_cached b r u a)
      unfolding WalletRoutes.drop_cached
      drop_wallet-Within u a =
          if-Within b spares b.has_cache
            (bind-Within b spares (WalletRoutes.all_of b r u a)
              (all_of-Within b spares redis serial spares-AllowsReads r u a)
              λ rows e.
                if-Within b spares (WalletRoutes.is_nil b r rows) (cache-Within _)
                  (pure-Within b spares tt))
            (pure-Within b spares tt)

      drop_tls-Within :
          (u : Uuid) (url : String) → Within b spares (TlsRoutes.drop_cached b r u url)
      unfolding TlsRoutes.drop_cached
      drop_tls-Within u url =
          if-Within b spares (b.has_cache && not (str_eq url "")) (cache-Within _)
            (pure-Within b spares tt)

      pub delete_wallet_scan-Within : Within b spares (WalletRoutes.delete_wallet_scan b r)
      unfolding WalletRoutes.delete_wallet_scan
      delete_wallet_scan-Within =
          bind-Within b spares (WalletRoutes.owner b r)
            (wallet_owner-Within b spares redis serial spares-AllowsReads r)
            λ u answer. bind-Within b spares _ (parse_scan_id_path-Within b spares r) λ id e.
              bind-Within b spares (WalletRoutes.find_owned b r u id)
                (find_owned-Within b spares redis serial spares-AllowsReads r u id)
                λ ent e.
                  bind-Within b spares _
                    (delete_owned_wallet-Within u id (wallet_owner-other u answer))
                    λ deleted e. bind-Within b spares _ (guard-Within b spares deleted _) λ h e.
                      bind-Within b spares _ (drop_wallet-Within u ent.address)
                        λ h e. pure-Within b spares _

      pub delete_tls_scan-Within : Within b spares (TlsRoutes.delete_tls_scan b r)
      unfolding TlsRoutes.delete_tls_scan
      delete_tls_scan-Within =
          bind-Within b spares (TlsRoutes.owner b r)
            (tls_owner-Within b spares redis serial spares-AllowsReads r)
            λ u answer. bind-Within b spares _ (parse_scan_id_path-Within b spares r) λ id e.
              bind-Within b spares _
                (find_own_tls-Within b spares redis serial spares-AllowsReads r u id)
                λ ent e. bind-Within b spares _ (found-Within b spares _ ent) λ ent e.
                  bind-Within b spares _ (delete_owned_tls-Within u id (tls_owner-other u answer))
                    λ deleted e. bind-Within b spares _ (guard-Within b spares deleted _) λ h e.
                      bind-Within b spares _ (drop_tls-Within u ent.url)
                        λ h e. pure-Within b spares _
