-- ===== src/ScanResults.antt =====
-- internal/repository/scan_result_repository.go and tls_scan_result_repository.go: what an owner
-- reads and deletes of scan_results and tls_scan_results. The lower case of a character in Go, and
-- LOWER of Postgres, are parameters. A deletion sets deleted_at.
pub mod Paging
pub mod Deletion
use Prim.Native.Char.{Char}
use cafe_persistence.Prelude.{
  ℕ, String, Bool, true, false, not, ◌&&◌, Option, none, some, List, if◌then◌else◌, ltb, ◌==◌,
  str_eq, Try, ok, Exec, pure, ◌>>=◌,
}
use cafe_persistence.Domain.{Uuid, ScanResultEntity}
use cafe_persistence.Domain.Tls.{TlsScanResultEntity}
use cafe_persistence.Db.{Error, Moment, Database, statement}
use cafe_persistence.Db.Table.{first, count, update}
use cafe_persistence.Db.Ordered.{select, skip, take, newest_first}
use cafe_persistence.Tables.{Tables, Statement, is_null, on_scan_results, on_tls_scan_results}
use cafe_persistence.ScanApi.Text.{trim_space, to_lower}

module _ {R : Type 0} (p : R → Bool) where
  abbrev pub find : Statement R (Option R)
  find m rows = (ok (first p rows), rows)

  abbrev pub count_rows : Statement R ℕ
  count_rows m rows = (ok (count p rows), rows)

  -- UPDATE … SET deleted_at = now WHERE p; answers whether a row was affected
  abbrev pub soft_delete : (ℕ → R → R) → Statement R Bool
  soft_delete deleted m rows = (ok (ltb 0 (count p rows)), update p (deleted m.now) rows)

  abbrev pub ordered : (List R → List R) → Statement R (List R)
  ordered order m rows = (ok (order (select p rows)), rows)

  -- … ORDER BY … LIMIT … OFFSET …
  abbrev pub page_of : (List R → List R) → ℕ → ℕ → Statement R (List R)
  page_of order limit offset m rows = (ok (take limit (skip offset (order (select p rows)))), rows)

abbrev pub wallet_deleted : ℕ → ScanResultEntity → ScanResultEntity
wallet_deleted now r = record r { deleted_at = some now }

abbrev pub tls_deleted : ℕ → TlsScanResultEntity → TlsScanResultEntity
tls_deleted now r = record r { deleted_at = some now }

-- id = ? AND user_id = ?
abbrev pub owned_wallet_at : Uuid → Uuid → ScanResultEntity → Bool
owned_wallet_at user_id scan_id r =
    is_null r.deleted_at && (r.id == scan_id && r.user_id == user_id)

abbrev pub is_user : Uuid → Option Uuid → Bool
is_user user_id none = false
is_user user_id (some u) = u == user_id

-- user_id = ? AND "default" = false
abbrev pub user_tls : Uuid → TlsScanResultEntity → Bool
user_tls user_id r = is_null r.deleted_at && (is_user user_id r.user_id && not r.is_default)

abbrev pub user_tls_at : Uuid → Uuid → TlsScanResultEntity → Bool
user_tls_at user_id scan_id r = user_tls user_id r && r.id == scan_id

abbrev pub default_tls : TlsScanResultEntity → Bool
default_tls r = is_null r.deleted_at && r.is_default

abbrev pub default_tls_at : Uuid → TlsScanResultEntity → Bool
default_tls_at scan_id r = is_null r.deleted_at && (r.id == scan_id && r.is_default)

abbrev pub wallets_newest_first : List ScanResultEntity → List ScanResultEntity
wallets_newest_first = newest_first (λ r. r.created_at) (λ r. r.id)

abbrev pub tls_newest_first : List TlsScanResultEntity → List TlsScanResultEntity
tls_newest_first = newest_first (λ r. r.created_at) (λ r. r.id)

pub record TextCase : Type 0 where
  pub lower : Char → Char
  pub sql_lower : String → String

module _ (text : TextCase) where
  -- the scope of ListOwnerWalletScansDiscoveryV1: every address where `address` is blank
  abbrev pub listed_wallet : Uuid → String → ScanResultEntity → Bool
  listed_wallet user_id address r =
      is_null r.deleted_at
      && (r.user_id == user_id
          && (if str_eq (trim_space address) ""
              then true
              else str_eq (text.sql_lower r.address) (to_lower text.lower (trim_space address))))

  abbrev pub wallet_of_address : Uuid → String → ScanResultEntity → Bool
  wallet_of_address user_id address r =
      is_null r.deleted_at
      && (r.user_id == user_id
          && str_eq (text.sql_lower r.address) (to_lower text.lower (trim_space address)))

  module _ (db : Database Tables) where
    unfoldable pub list_owner_wallet_scans_discovery_v1 :
        Uuid → String → ℕ → ℕ → Exec db.Conn Error (List ScanResultEntity × ℕ)
    list_owner_wallet_scans_discovery_v1 user_id address limit offset = do
      total ← statement db (on_scan_results (count_rows (listed_wallet user_id address)))
      rows ← statement db (
          on_scan_results
            (page_of (listed_wallet user_id address) wallets_newest_first limit offset))
      pure (rows, total)

    unfoldable pub list_owner_wallet_scans_by_address :
        Uuid → String → Exec db.Conn Error (List ScanResultEntity)
    list_owner_wallet_scans_by_address user_id address =
        statement db
          (on_scan_results (ordered (wallet_of_address user_id address) wallets_newest_first))

module _ (db : Database Tables) where
  unfoldable pub find_owned_wallet_scan_by_id :
      Uuid → Uuid → Exec db.Conn Error (Option ScanResultEntity)
  find_owned_wallet_scan_by_id user_id scan_id =
      statement db (on_scan_results (find (owned_wallet_at user_id scan_id)))

  unfoldable pub delete_owned_wallet_scan : Uuid → Uuid → Exec db.Conn Error Bool
  delete_owned_wallet_scan user_id scan_id =
      statement db (on_scan_results (soft_delete (owned_wallet_at user_id scan_id) wallet_deleted))

  unfoldable pub find_default_tls_scan_by_id :
      Uuid → Exec db.Conn Error (Option TlsScanResultEntity)
  find_default_tls_scan_by_id scan_id =
      statement db (on_tls_scan_results (find (default_tls_at scan_id)))

  unfoldable pub find_owned_user_tls_scan_by_id :
      Uuid → Uuid → Exec db.Conn Error (Option TlsScanResultEntity)
  find_owned_user_tls_scan_by_id user_id scan_id =
      statement db (on_tls_scan_results (find (user_tls_at user_id scan_id)))

  unfoldable pub delete_owned_user_tls_scan : Uuid → Uuid → Exec db.Conn Error Bool
  delete_owned_user_tls_scan user_id scan_id =
      statement db (on_tls_scan_results (soft_delete (user_tls_at user_id scan_id) tls_deleted))

  unfoldable pub list_owner_user_tls_scans_discovery_v1 :
      Uuid → ℕ → ℕ → Exec db.Conn Error (List TlsScanResultEntity × ℕ)
  list_owner_user_tls_scans_discovery_v1 user_id limit offset = do
    total ← statement db (on_tls_scan_results (count_rows (user_tls user_id)))
    rows ←
        statement db
          (on_tls_scan_results (page_of (user_tls user_id) tls_newest_first limit offset))
    pure (rows, total)

  -- ORDER BY created_at DESC alone: the order of rows of one time is that of Postgres, a parameter
  unfoldable pub find_all_default :
      (List TlsScanResultEntity → List TlsScanResultEntity)
      → Exec db.Conn Error (List TlsScanResultEntity)
  find_all_default by_created_at =
      statement db (on_tls_scan_results (ordered default_tls by_created_at))
