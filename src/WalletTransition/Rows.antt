-- ===== src/WalletTransition/Rows.antt =====
-- internal/wallettransition/apply.go: newRow, and the statements on `scan_results`.
use cafe_persistence.Prelude.{
  ℕ, Bool, false, ◌&&◌, Option, none, some, [], ◌∷◌, ◌++◌, if◌then◌else◌, ◌==◌, str_eq, Try, ok,
  err,
}
use cafe_persistence.Domain.{Uuid, nil_uuid, ScanResult, ScanResultEntity}
use cafe_persistence.Domain.WalletKind.{normalize_scan_result_wallet_kind}
use cafe_persistence.Domain.Entity.{Codec, from_scan_result, ensure_scan_result_delegations}
use cafe_persistence.Db.{Error, nil_pointer}
use cafe_persistence.Db.Table.{first, count, update, exists}
use cafe_persistence.Tables.{Statement, wallet_at, before_create}
use cafe_persistence.Scan.{running, success, failed}
use cafe_persistence.WalletTransition.{Command, source_scope}

abbrev pub blank_row : ScanResultEntity
blank_row = record {
  id = nil_uuid;
  user_id = nil_uuid;
  address = "";
  account_type = "";
  algorithm = "";
  nist_level = 0;
  key_exposed = false;
  public_key = "";
  transaction_hash = "";
  exposed_network = "";
  public_key_recovery = "";
  is_eoa = false;
  is_erc4337 = false;
  risk_score = 0;
  networks = "";
  delegations = "";
  connections = "";
  status = "";
  error = "";
  transition_id = none;
  created_at = 0;
  updated_at = 0;
  deleted_at = none;
}

module _ (codec : Codec) where
  abbrev success_row : Uuid → Command → Option ScanResult → Try Error ScanResultEntity
  success_row scan_id cmd none = err nil_pointer
  success_row scan_id cmd (some r) = ok (record (from_scan_result codec cmd.user_id r) {
    id = scan_id;
    status = success;
    error = "";
    address = cmd.address;
    transition_id = some cmd.transition_id;
  })

  -- A nil result for SUCCESS is a nil dereference in Go.
  unfoldable pub new_row : Uuid → Command → Try Error ScanResultEntity
  unfolding from_scan_result ensure_scan_result_delegations normalize_scan_result_wallet_kind
  new_row scan_id cmd =
      if str_eq cmd.target_state success
      then success_row scan_id cmd
          (normalize_scan_result_wallet_kind (ensure_scan_result_delegations cmd.result))
      else (if str_eq cmd.target_state failed
          then ok (record blank_row {
            id = scan_id;
            user_id = cmd.user_id;
            address = cmd.address;
            status = failed;
            error = cmd.error;
            transition_id = some cmd.transition_id;
          })
          else ok (record blank_row {
            id = scan_id;
            user_id = cmd.user_id;
            address = cmd.address;
            status = running;
            transition_id = some cmd.transition_id;
          }))

-- INSERT … ON CONFLICT (id) DO NOTHING; answers the rows affected
unfoldable pub insert_scan : ScanResultEntity → Statement ScanResultEntity ℕ
insert_scan ent m rows =
    let id = before_create ent.id m in
    if exists (λ r. r.id == id) rows
    then (ok 0, rows)
    else (ok 1, rows ++ record ent { id = id; created_at = m.now; updated_at = m.now } ∷ [])

-- SELECT … WHERE id = ? LIMIT 1
unfoldable pub select_scan : Uuid → Statement ScanResultEntity (Option ScanResultEntity)
select_scan scan_id m rows = (ok (first (wallet_at scan_id) rows), rows)

abbrev pub in_scope : Uuid → Command → ScanResultEntity → Bool
in_scope scan_id cmd r = wallet_at scan_id r && source_scope cmd.source_states r.status

-- what `Updates` sets: every column but created_at and deleted_at for SUCCESS, else six columns
unfoldable pub overwrite : Command → ScanResultEntity → ℕ → ScanResultEntity → ScanResultEntity
overwrite cmd ent now r =
    if str_eq cmd.target_state success
    then record ent { created_at = r.created_at; deleted_at = r.deleted_at; updated_at = now }
    else record r {
      status = ent.status;
      error = ent.error;
      user_id = ent.user_id;
      address = ent.address;
      transition_id = some cmd.transition_id;
      updated_at = now;
    }

-- UPDATE … WHERE id = ? AND (status …); answers the rows affected
unfoldable pub update_scan : Uuid → Command → ScanResultEntity → Statement ScanResultEntity ℕ
update_scan scan_id cmd ent m rows = (
  ok (count (in_scope scan_id cmd) rows),
  update (in_scope scan_id cmd) (overwrite cmd ent m.now) rows,
)
