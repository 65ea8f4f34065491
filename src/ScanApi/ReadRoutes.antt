-- ===== src/ScanApi/ReadRoutes.antt =====
-- The GET routes of the scan API, for a relation that holds across a read of Redis or Postgres.
use cafe_persistence.Prelude.{ℕ, String, Bool, true, false, Option, none, some, str_eq, ℤ, Exec}
use cafe_persistence.Domain.{Uuid}
use cafe_persistence.Domain.Tls.{TlsScanResultEntity}
use cafe_persistence.Db.{Error, IsSerial}
use cafe_persistence.ScanApi.Text.{trim_space}
use cafe_persistence.ScanResults.{find_owned_user_tls_scan_by_id}
use cafe_persistence.ScanApi.Http.{Response, HttpRequest, Backend, on_sql, on_redis}
use cafe_persistence.ScanApi.Within.{
  Order, Within, bind-Within, pure-Within, guard-Within, found-Within, if-Within,
  parse_scan_id_path-Within, require_user_id-Within,
}
use cafe_persistence.ScanApi.Reads.{
  Keeps, get-Keeps, get_wallet_by_owner_address-Keeps, list_owner_wallet_scans_discovery_v1-Keeps,
  list_owner_wallet_scans_by_address-Keeps, find_owned_wallet_scan_by_id-Keeps,
  find_owned_user_tls_scan_by_id-Keeps, find_default_tls_scan_by_id-Keeps,
  list_owner_user_tls_scans_discovery_v1-Keeps, find_all_default-Keeps, count_success_usage-Keeps,
  count_in_flight_scans-Keeps, count_visible_success_scans-Keeps,
}
use cafe_persistence.ScanApi.PendingRoutes
use cafe_persistence.ScanApi.WalletRoutes
use cafe_persistence.ScanApi.TlsRoutes
use cafe_persistence.ScanApi.Serve

-- Reading is within the relation.
pub record AllowsReads (b : Backend) (o : Order b) : Type 1 where
  pub redis :
      {A : Type 0} (failed : Response) (m : Exec b.redis.Conn Error A)
      → Keeps b.redis m
      → Within b o (on_redis b failed m)
  pub sql :
      {A : Type 0} (failed : Response) (m : Exec b.sql.Conn Error A)
      → Keeps b.sql m
      → Within b o (on_sql b failed m)

module _ (b : Backend) (o : Order b) (redis : IsSerial b.redis) (sql : IsSerial b.sql)
    (reads : AllowsReads b o) (r : HttpRequest) where
  pub pending_owner-Within : Within b o (PendingRoutes.owner b r)
  pending_owner-Within =
      bind-Within b o _ (require_user_id-Within b o r)
        λ u e. bind-Within b o _ (guard-Within b o _ _) λ h e. pure-Within b o u

  pub wallet_owner-Within : Within b o (WalletRoutes.owner b r)
  wallet_owner-Within =
      bind-Within b o _ (require_user_id-Within b o r)
        λ u e. bind-Within b o _ (guard-Within b o _ _) λ h e. pure-Within b o u

  pub tls_owner-Within : Within b o (TlsRoutes.owner b r)
  tls_owner-Within =
      bind-Within b o _ (require_user_id-Within b o r)
        λ u e. bind-Within b o _ (guard-Within b o _ _) λ h e. pure-Within b o u

  pub get_wallet_pending_by_address-Within :
      Within b o (PendingRoutes.get_wallet_pending_by_address b r)
  unfolding PendingRoutes.get_wallet_pending_by_address
  get_wallet_pending_by_address-Within =
      bind-Within b o (PendingRoutes.owner b r) pending_owner-Within λ u e.
        bind-Within b o _ (guard-Within b o _ _) λ h e.
          bind-Within b o _
            (reads.redis _ _ (get_wallet_by_owner_address-Keeps b.codec b.redis redis u _))
            λ rec e. bind-Within b o _ (found-Within b o _ rec) λ rec e. pure-Within b o _

  pub get_pending_scan-Within : Within b o (PendingRoutes.get_pending_scan b r)
  unfolding PendingRoutes.get_pending_scan
  get_pending_scan-Within = bind-Within b o (PendingRoutes.owner b r) pending_owner-Within λ u e.
      bind-Within b o _ (parse_scan_id_path-Within b o r) λ id e.
        bind-Within b o _ (reads.redis _ _ (get-Keeps b.codec b.redis redis id))
          λ rec e. bind-Within b o _ (found-Within b o _ _) λ rec e. pure-Within b o _

  chain_id_of-Within : (q : String) → Within b o (WalletRoutes.chain_id_of b r q)
  unfolding WalletRoutes.chain_id_of
  chain_id_of-Within q =
      if-Within b o (str_eq q "") (pure-Within b o none)
        (bind-Within b o _ (found-Within b o _ _) λ v e. pure-Within b o (some v))

  pub all_of-Within : (u : Uuid) (a : String) → Within b o (WalletRoutes.all_of b r u a)
  all_of-Within u a =
      reads.sql _ _ (list_owner_wallet_scans_by_address-Keeps b.casing b.sql sql u a)

  filtered-Within :
      (u : Uuid) (a : String) (chain_id : Option ℤ) (window : ℕ × ℕ)
      → Within b o (WalletRoutes.filtered b r u a chain_id window)
  filtered-Within u a none window =
      reads.sql _ _
        (list_owner_wallet_scans_discovery_v1-Keeps b.casing b.sql sql u a window.0 window.1)
  filtered-Within u a (some v) window =
      bind-Within b o _ (all_of-Within u a) λ rows e. pure-Within b o _

  listed-Within :
      (u : Uuid) (a : String) (latest : Bool) (chain_id : Option ℤ) (window : ℕ × ℕ)
      → Within b o (WalletRoutes.listed b r u a latest chain_id window)
  unfolding WalletRoutes.listed
  listed-Within u a true chain_id window =
      bind-Within b o _ (all_of-Within u a) λ rows e. pure-Within b o _
  listed-Within u a false chain_id window = filtered-Within u a chain_id window

  pub list_wallet_scans-Within : Within b o (WalletRoutes.list_wallet_scans b r)
  unfolding WalletRoutes.list_wallet_scans
  list_wallet_scans-Within = bind-Within b o (WalletRoutes.owner b r) wallet_owner-Within λ u e.
      bind-Within b o _ (found-Within b o _ _) λ latest e.
        bind-Within b o _ (guard-Within b o _ _) λ h e.
          bind-Within b o _ (guard-Within b o _ _) λ h e.
            bind-Within b o _ (chain_id_of-Within (trim_space r.query_chain_id)) λ chain_id e.
              bind-Within b o _ (listed-Within u _ latest chain_id _) λ answer e. pure-Within b o _

  pub find_owned-Within : (u id : Uuid) → Within b o (WalletRoutes.find_owned b r u id)
  find_owned-Within u id =
      bind-Within b o _ (reads.sql _ _ (find_owned_wallet_scan_by_id-Keeps b.sql sql u id))
        λ ent e. found-Within b o _ ent

  pub get_wallet_scan-Within : Within b o (WalletRoutes.get_wallet_scan b r)
  unfolding WalletRoutes.get_wallet_scan
  get_wallet_scan-Within = bind-Within b o (WalletRoutes.owner b r) wallet_owner-Within λ u e.
      bind-Within b o _ (parse_scan_id_path-Within b o r) λ id e.
        bind-Within b o (WalletRoutes.find_owned b r u id) (find_owned-Within u id)
          λ ent e. pure-Within b o _

  pub list_tls_scans-Within : Within b o (TlsRoutes.list_tls_scans b r)
  unfolding TlsRoutes.list_tls_scans
  list_tls_scans-Within = bind-Within b o (TlsRoutes.owner b r) tls_owner-Within λ u e.
      bind-Within b o _
        (reads.sql _ _ (list_owner_user_tls_scans_discovery_v1-Keeps b.sql sql u _ _))
        λ answer e. pure-Within b o _

  pub list_tls_default_scans-Within : Within b o (TlsRoutes.list_tls_default_scans b r)
  unfolding TlsRoutes.list_tls_default_scans
  list_tls_default_scans-Within = bind-Within b o (TlsRoutes.owner b r) tls_owner-Within λ u e.
      bind-Within b o _ (reads.sql _ _ (find_all_default-Keeps b.sql sql _))
        λ rows e. pure-Within b o _

  pub find_own_tls-Within :
      (u id : Uuid)
      → Within b o
          (on_sql b (TlsRoutes.unavailable b r) (find_owned_user_tls_scan_by_id b.sql u id))
  find_own_tls-Within u id = reads.sql _ _ (find_owned_user_tls_scan_by_id-Keeps b.sql sql u id)

  or_default_scan-Within :
      (id : Uuid) (ent : Option TlsScanResultEntity)
      → Within b o (TlsRoutes.or_default_scan b r id ent)
  or_default_scan-Within id none = reads.sql _ _ (find_default_tls_scan_by_id-Keeps b.sql sql id)
  or_default_scan-Within id (some ent) = pure-Within b o (some ent)

  pub get_tls_scan-Within : Within b o (TlsRoutes.get_tls_scan b r)
  unfolding TlsRoutes.get_tls_scan
  get_tls_scan-Within = bind-Within b o (TlsRoutes.owner b r) tls_owner-Within λ u e.
      bind-Within b o _ (parse_scan_id_path-Within b o r) λ id e.
        bind-Within b o _ (find_own_tls-Within u id) λ ent e.
          bind-Within b o _ (or_default_scan-Within id ent)
            λ ent e. bind-Within b o _ (found-Within b o _ ent) λ ent e. pure-Within b o _

  pub get_scan_ledger_usage-Within : Within b o (Serve.get_scan_ledger_usage b r)
  unfolding Serve.get_scan_ledger_usage
  get_scan_ledger_usage-Within = bind-Within b o _ (require_user_id-Within b o r) λ u e.
      bind-Within b o _ (guard-Within b o _ _) λ h e.
        bind-Within b o _ (guard-Within b o _ _) λ h e.
          bind-Within b o _ (guard-Within b o _ _) λ h e.
            bind-Within b o _ (reads.sql _ _ (count_success_usage-Keeps b.sql sql u _)) λ n e.
              bind-Within b o _ (reads.sql _ _ (count_in_flight_scans-Keeps b.sql sql u _)) λ n e.
                bind-Within b o _ (reads.sql _ _ (count_visible_success_scans-Keeps b.sql sql u _))
                  λ n e. pure-Within b o _
