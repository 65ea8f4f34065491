-- ===== src/Storage/Tls.antt =====
-- internal/persistence/storage/postgres.go: TLSWriter.
pub mod Writes
use cafe_persistence.Prelude.{
  ℕ, String, Bool, true, false, not, ◌&&◌, Option, none, some, List, [], ◌∷◌, ◌++◌, if◌then◌else◌,
  ltb, ◌==◌, str_eq, Try, ok, err, Exec, pure, ◌>>=◌, ◌>>◌,
}
use cafe_persistence.Domain.{Uuid, nil_uuid}
use cafe_persistence.Domain.Tls.{TlsScanResultEntity}
use cafe_persistence.Db.{Error, duplicate_key, Moment, Database, statement}
use cafe_persistence.Db.Table.{first, count, update, exists}
use cafe_persistence.Tables.{Tables, Statement, before_create, is_null, tls_at, on_tls_scan_results}
use cafe_persistence.Scan.{running, success, failed, plan_limit_exceeded}

abbrev pub blank_tls : TlsScanResultEntity
blank_tls = record {
  id = nil_uuid;
  user_id = none;
  url = "";
  host = "";
  port = 0;
  protocol_version = "";
  nist_level = 0;
  risk_score = 0;
  pqc_risk = "";
  certificate = "";
  cipher_suites = "";
  supported_pqcs = "";
  recommendations = "";
  kex_algorithm = "";
  kex_pqc_ready = false;
  pqc_mode = "";
  pfs = false;
  alpn = "";
  ocsp_stapled = false;
  curve = "";
  nist_levels = "";
  is_default = false;
  status = "";
  error = "";
  created_at = 0;
  updated_at = 0;
  deleted_at = none;
}

abbrev pub is_nil : Option Uuid → Bool
is_nil none = true
is_nil (some _) = false

-- SELECT status … WHERE id = ?
unfoldable pub select_tls : Uuid → Statement TlsScanResultEntity (Option TlsScanResultEntity)
select_tls scan_id m rows = (ok (first (tls_at scan_id) rows), rows)

-- INSERT; the primary key refuses a second row of the id, also a soft-deleted one
unfoldable pub insert_tls : TlsScanResultEntity → Statement TlsScanResultEntity Unit
insert_tls ent m rows =
    let id = before_create ent.id m in
    if exists (λ r. r.id == id) rows
    then (err duplicate_key, rows)
    else (ok tt, rows ++ record ent { id = id; created_at = m.now; updated_at = m.now } ∷ [])

-- UPDATE … WHERE id = ?; answers the rows affected
unfoldable pub update_tls :
    Uuid → (ℕ → TlsScanResultEntity → TlsScanResultEntity) → Statement TlsScanResultEntity ℕ
update_tls scan_id set m rows =
    (ok (count (tls_at scan_id) rows), update (tls_at scan_id) (set m.now) rows)

-- SELECT COUNT(*) … WHERE id = ? AND deleted_at IS NOT NULL
abbrev pub count_deleted : Uuid → Statement TlsScanResultEntity ℕ
count_deleted scan_id m rows =
    (ok (count (λ r. r.id == scan_id && not (is_null r.deleted_at)) rows), rows)

abbrev pub previous_default : Uuid → String → TlsScanResultEntity → Bool
previous_default scan_id url r =
    is_null r.deleted_at && (is_nil r.user_id && (str_eq r.url url && not (r.id == scan_id)))

-- the soft DELETE of the earlier default rows
abbrev pub delete_previous : Uuid → String → Statement TlsScanResultEntity Unit
delete_previous scan_id url m rows =
    (ok tt, update (previous_default scan_id url) (λ r. record r { deleted_at = some m.now }) rows)

abbrev pub completed : TlsScanResultEntity → Uuid → TlsScanResultEntity
completed entity scan_id = record entity { id = scan_id; status = success; error = "" }

-- every column but created_at
abbrev pub set_completed : TlsScanResultEntity → ℕ → TlsScanResultEntity → TlsScanResultEntity
set_completed entity now r = record entity { created_at = r.created_at; updated_at = now }

abbrev pub set_plan_limit_exceeded : ℕ → TlsScanResultEntity → TlsScanResultEntity
set_plan_limit_exceeded now r = record r {
  status = failed;
  error = plan_limit_exceeded;
  host = "";
  port = 0;
  protocol_version = "";
  nist_level = 0;
  risk_score = 0;
  pqc_risk = "";
  certificate = "";
  cipher_suites = "";
  supported_pqcs = "";
  recommendations = "";
  nist_levels = "";
  updated_at = now;
}

abbrev pub set_failed : String → ℕ → TlsScanResultEntity → TlsScanResultEntity
set_failed message now r = record r { status = failed; error = message; updated_at = now }

abbrev status_or_empty : Option TlsScanResultEntity → String
status_or_empty none = ""
status_or_empty (some r) = r.status

module _ (db : Database Tables) where
  unfoldable pub get_status : Uuid → Exec db.Conn Error String
  get_status scan_id = do
    row ← statement db (on_tls_scan_results (select_tls scan_id))
    pure (status_or_empty row)

  unfoldable pub create_tls : TlsScanResultEntity → Exec db.Conn Error Unit
  create_tls ent = statement db (on_tls_scan_results (insert_tls ent))

  unfoldable pub default_already_replaced : Uuid → Exec db.Conn Error Bool
  default_already_replaced scan_id = do
    n ← statement db (on_tls_scan_results (count_deleted scan_id))
    pure (ltb 0 n)

  unfoldable pub replace_previous_default : Uuid → String → Exec db.Conn Error Unit
  replace_previous_default scan_id url =
      statement db (on_tls_scan_results (delete_previous scan_id url))

  abbrev pub started : Uuid → Option Uuid → String → TlsScanResultEntity
  started scan_id user_id url = record blank_tls {
    id = scan_id;
    user_id = user_id;
    url = url;
    status = running;
    is_default = is_nil user_id;
  }

  start_default : Uuid → String → Exec db.Conn Error Unit
  unfolding create_tls default_already_replaced replace_previous_default
  start_default scan_id url = do
    replaced ← default_already_replaced scan_id
    if replaced
        then pure tt
        else (do create_tls (started scan_id none url); replace_previous_default scan_id url)

  unfoldable pub start_row : Uuid → Option Uuid → String → Exec db.Conn Error Unit
  unfolding start_default create_tls
  start_row scan_id none url = start_default scan_id url
  start_row scan_id (some user_id) url = create_tls (started scan_id (some user_id) url)

  unfoldable pub on_started : Uuid → Option Uuid → String → Exec db.Conn Error Unit
  unfolding get_status start_row
  on_started scan_id user_id url = do
    current ← get_status scan_id
    if str_eq current "" then start_row scan_id user_id url else pure tt

  -- `RowsAffected == 0`: the row is missing and is inserted
  abbrev create_if_none : TlsScanResultEntity → ℕ → Exec db.Conn Error Unit
  create_if_none ent n = if n == 0 then create_tls ent else pure tt

  unfoldable pub update_or_create :
      Uuid
      → (ℕ → TlsScanResultEntity → TlsScanResultEntity)
      → TlsScanResultEntity
      → Exec db.Conn Error Unit
  update_or_create scan_id set ent = do
    n ← statement db (on_tls_scan_results (update_tls scan_id set))
    create_if_none ent n

  unfoldable pub on_completed_in_tx : Uuid → TlsScanResultEntity → Exec db.Conn Error Unit
  on_completed_in_tx scan_id entity =
      let ent = completed entity scan_id in update_or_create scan_id (set_completed ent) ent

  abbrev pub limited_row : Uuid → Option Uuid → String → TlsScanResultEntity
  limited_row scan_id user_id url = record blank_tls {
    id = scan_id;
    user_id = user_id;
    url = url;
    status = failed;
    error = plan_limit_exceeded;
  }

  unfoldable pub on_plan_limit_exceeded_in_tx :
      Uuid → Option Uuid → String → Exec db.Conn Error Unit
  on_plan_limit_exceeded_in_tx scan_id user_id url =
      update_or_create scan_id set_plan_limit_exceeded (limited_row scan_id user_id url)

  abbrev pub failed_row : Uuid → Option Uuid → String → String → TlsScanResultEntity
  failed_row scan_id user_id url message = record blank_tls {
    id = scan_id;
    user_id = user_id;
    url = url;
    protocol_version = "unknown";
    nist_level = 1;
    pqc_risk = "unknown";
    status = failed;
    error = message;
  }

  unfoldable pub on_failed_in_tx : Uuid → Option Uuid → String → String → Exec db.Conn Error Unit
  on_failed_in_tx scan_id user_id url message =
      update_or_create scan_id (set_failed message) (failed_row scan_id user_id url message)
