-- ===== src/Tables.antt =====
-- The tables that the scan side of the service reads and writes, and the row tests that gorm adds:
-- a model with a `DeletedAt` column is filtered by `deleted_at IS NULL`.
use cafe_persistence.Prelude.{
  ℕ, Bool, true, false, ◌&&◌, ◌+◌, Option, none, some, List, if◌then◌else◌, ◌==◌, Try,
}
use cafe_persistence.Domain.{Uuid, nil_uuid, ScanResultEntity, ScanUsageEventEntity}
use cafe_persistence.Domain.Tls.{TlsScanResultEntity}
use cafe_persistence.Domain.Plan.{Plan, User}
use cafe_persistence.Db.{Error, Moment}

pub record Tables : Type 0 where
  pub scan_results : List ScanResultEntity
  pub tls_scan_results : List TlsScanResultEntity
  pub scan_usage_events : List ScanUsageEventEntity
  pub users : List User
  pub plans : List Plan

abbrev pub is_null : Option ℕ → Bool
is_null none = true
is_null (some _) = false

-- WHERE id = ? on scan_results and on tls_scan_results
abbrev pub wallet_at : Uuid → ScanResultEntity → Bool
wallet_at id r = is_null r.deleted_at && r.id == id

abbrev pub tls_at : Uuid → TlsScanResultEntity → Bool
tls_at id r = is_null r.deleted_at && r.id == id

-- BeforeCreate of both rows: a nil id becomes uuid.New(), which is never nil
unfoldable pub before_create : Uuid → Moment → Uuid
before_create id m = if id == nil_uuid then m.fresh + 1 else id

-- a statement on one of the tables
abbrev pub Statement : Type 0 → Type 0 → Type 0
Statement R A = Moment → List R → Try Error A × List R

abbrev pub on_scan_results :
    {A : Type 0} → Statement ScanResultEntity A → Moment → Tables → Try Error A × Tables
on_scan_results f m t = let (r, rows) = f m t.scan_results in (r, record t { scan_results = rows })

abbrev pub on_tls_scan_results :
    {A : Type 0} → Statement TlsScanResultEntity A → Moment → Tables → Try Error A × Tables
on_tls_scan_results f m t =
    let (r, rows) = f m t.tls_scan_results in (r, record t { tls_scan_results = rows })

abbrev pub on_scan_usage_events :
    {A : Type 0} → Statement ScanUsageEventEntity A → Moment → Tables → Try Error A × Tables
on_scan_usage_events f m t =
    let (r, rows) = f m t.scan_usage_events in (r, record t { scan_usage_events = rows })
