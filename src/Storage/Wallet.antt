-- ===== src/Storage/Wallet.antt =====
-- internal/persistence/storage/postgres.go: WalletWriter, which the NATS handlers no longer call.
use cafe_persistence.Prelude.{
  ℕ, String, false, Option, none, some, [], ◌∷◌, ◌++◌, if◌then◌else◌, ◌==◌, str_eq, ok, err, Exec,
  pure, ◌>>=◌,
}
use cafe_persistence.Domain.{Uuid, ScanResultEntity}
use cafe_persistence.Db.{Error, duplicate_key, Database, statement}
use cafe_persistence.Db.Table.{count, update, exists}
use cafe_persistence.Tables.{Tables, Statement, before_create, wallet_at, on_scan_results}
use cafe_persistence.Scan.{running, success, failed, plan_limit_exceeded}
use cafe_persistence.WalletTransition.Rows.{blank_row, select_scan}

-- INSERT; the primary key refuses a second row of the id
unfoldable pub insert_wallet : ScanResultEntity → Statement ScanResultEntity Unit
insert_wallet ent m rows =
    let id = before_create ent.id m in
    if exists (λ r. r.id == id) rows
    then (err duplicate_key, rows)
    else (ok tt, rows ++ record ent { id = id; created_at = m.now; updated_at = m.now } ∷ [])

unfoldable pub update_wallet :
    Uuid → (ℕ → ScanResultEntity → ScanResultEntity) → Statement ScanResultEntity ℕ
update_wallet scan_id set m rows =
    (ok (count (wallet_at scan_id) rows), update (wallet_at scan_id) (set m.now) rows)

abbrev set_completed : ScanResultEntity → ℕ → ScanResultEntity → ScanResultEntity
set_completed entity now r = record entity { created_at = r.created_at; updated_at = now }

abbrev set_plan_limit_exceeded : ℕ → ScanResultEntity → ScanResultEntity
set_plan_limit_exceeded now r = record r {
  status = failed;
  error = plan_limit_exceeded;
  account_type = "";
  algorithm = "";
  nist_level = 0;
  key_exposed = false;
  public_key = "";
  transaction_hash = "";
  exposed_network = "";
  public_key_recovery = "";
  is_eoa = false;
  is_erc4337 = false;
  risk_score = 0;
  networks = "";
  delegations = "";
  connections = "";
  updated_at = now;
}

abbrev status_or_empty : Option ScanResultEntity → String
status_or_empty none = ""
status_or_empty (some r) = r.status

module _ (db : Database Tables) where
  unfoldable pub get_status : Uuid → Exec db.Conn Error String
  get_status scan_id = do
    row ← statement db (on_scan_results (select_scan scan_id))
    pure (status_or_empty row)

  unfoldable pub create_wallet : ScanResultEntity → Exec db.Conn Error Unit
  create_wallet ent = statement db (on_scan_results (insert_wallet ent))

  unfoldable pub on_started : Uuid → Uuid → String → Exec db.Conn Error Unit
  unfolding get_status create_wallet
  on_started scan_id user_id address = do
    current ← get_status scan_id
    if str_eq current ""
        then create_wallet (record blank_row {
          id = scan_id;
          user_id = user_id;
          address = address;
          status = running;
        })
        else pure tt

  abbrev create_if_none : ScanResultEntity → ℕ → Exec db.Conn Error Unit
  create_if_none ent n = if n == 0 then create_wallet ent else pure tt

  unfoldable pub update_or_create :
      Uuid → (ℕ → ScanResultEntity → ScanResultEntity) → ScanResultEntity → Exec db.Conn Error Unit
  update_or_create scan_id set ent = do
    n ← statement db (on_scan_results (update_wallet scan_id set))
    create_if_none ent n

  unfoldable pub on_completed_in_tx : Uuid → ScanResultEntity → Exec db.Conn Error Unit
  on_completed_in_tx scan_id entity =
      let ent : ScanResultEntity = record entity { id = scan_id; status = success; error = "" } in
      update_or_create scan_id (set_completed ent) ent

  unfoldable pub on_plan_limit_exceeded_in_tx : Uuid → Uuid → String → Exec db.Conn Error Unit
  on_plan_limit_exceeded_in_tx scan_id user_id address =
      update_or_create scan_id set_plan_limit_exceeded (record blank_row {
        id = scan_id;
        user_id = user_id;
        address = address;
        status = failed;
        error = plan_limit_exceeded;
      })

  unfoldable pub on_failed_in_tx : Uuid → Uuid → String → String → Exec db.Conn Error Unit
  on_failed_in_tx scan_id user_id address message =
      update_or_create scan_id
        (λ now r. record r { status = failed; error = message; updated_at = now })
        (record blank_row {
          id = scan_id;
          user_id = user_id;
          address = address;
          status = failed;
          error = message;
        })
