-- ===== src/ScanEvents/Handlers.antt =====
-- internal/persistence/handlers: the handlers of scan_events.go and wire.go.
use cafe_persistence.Prelude.{
  String, Bool, not, ◌&&◌, if◌then◌else◌, str_eq, Try, ok, err, Exec, pure, ◌>>=◌, ◌>>◌,
}
use cafe_persistence.Domain.{Uuid}
use cafe_persistence.Domain.Tls.{TlsScanResult, TlsScanResultEntity, from_tls_scan_result}
use cafe_persistence.Db.{Error, statement}
use cafe_persistence.Scan.{success, failed, valid_transition}
use cafe_persistence.Storage.Tls.{get_status, on_started}
use cafe_persistence.ScanEvents.{
  kind_tls, Message, View, Ready, CacheKey, saved, failure, set_key, publish, Services,
  user_pointer, new_view, decode_result,
}
use cafe_persistence.ScanEvents.Commit.{commit_tls_completion, persist_tls_failure}

module _ (s : Services) where
  pub record World : Type 0 where
    pub conn : s.db.Conn
    pub redis : s.cache.Conn
    pub nats : s.bus.Conn

  abbrev Step : Type 0 → Type 0
  Step A = Exec World Error A

  abbrev pub on_db : {A : Type 0} → Exec s.db.Conn Error A → Step A
  on_db m w = let (r, c) = m w.conn in (r, record w { conn = c })

  abbrev pub on_cache : {A : Type 0} → Exec s.cache.Conn Error A → Step A
  on_cache m w = let (r, c) = m w.redis in (r, record w { redis = c })

  -- a publish that fails is logged
  abbrev pub publish_scan_ready : Ready → Step Unit
  publish_scan_ready ready w =
      if s.has_nats
      then (ok tt, record w { nats = (statement s.bus (publish ready) w.nats).1 })
      else (ok tt, w)

  abbrev pub ready_tls : View → String → Ready
  ready_tls msg status = record {
    user_id = msg.user_id;
    kind = kind_tls;
    endpoint = msg.endpoint;
    address = "";
    status = status;
  }

  abbrev pub entity_of : View → TlsScanResult → TlsScanResultEntity
  entity_of msg result =
      record (from_tls_scan_result s.codec (user_pointer msg.user_id) result result.is_default) {
        id = msg.scan_id;
      }

  abbrev pub cache_key : View → CacheKey
  cache_key msg = record { user_id = msg.user_id; url = msg.endpoint }

  -- `current, _ := GetStatus`: an error reads as no status
  abbrev or_no_status : Try Error String → String
  or_no_status (ok status) = status
  or_no_status (err e) = ""

  abbrev pub peek_status : Uuid → Step String
  peek_status scan_id w =
      let (r, c) = get_status s.db scan_id w.conn in (ok (or_no_status r), record w { conn = c })

  -- after the commit
  unfoldable pub announce : View → TlsScanResult → Bool → Step Unit
  announce msg result acquired =
      if acquired
      then (do
        on_cache (statement s.cache (set_key (cache_key msg) (saved result)))
        publish_scan_ready (ready_tls msg "success"))
      else publish_scan_ready (ready_tls msg "failed")

  unfoldable pub handle_tls_completed : View → Step Unit
  unfolding announce
  handle_tls_completed msg = do
    current ← peek_status msg.scan_id
    if not (valid_transition current success) then pure tt else (do
      result ← λ w. (decode_result s msg.result, w)
      acquired ← on_db (commit_tls_completion s msg (entity_of msg result) result)
      announce msg result acquired)

  unfoldable pub handle_tls_failed : View → Step Unit
  handle_tls_failed msg = do
    current ← on_db (get_status s.db msg.scan_id)
    if not (str_eq current "") && not (valid_transition current failed) then pure tt else (do
      on_db (persist_tls_failure s msg.scan_id (user_pointer msg.user_id) msg.endpoint msg.error)
      on_cache (statement s.cache (set_key (cache_key msg) (failure msg.error)))
      publish_scan_ready (ready_tls msg "failed"))

  -- Wallet events and unknown kinds are ignored.
  unfoldable pub apply_started : View → Step Unit
  apply_started msg =
      if str_eq msg.kind kind_tls
      then on_db (on_started s.db msg.scan_id (user_pointer msg.user_id) msg.endpoint)
      else pure tt

  unfoldable pub apply_completed : View → Step Unit
  unfolding handle_tls_completed
  apply_completed msg = if str_eq msg.kind kind_tls then handle_tls_completed msg else pure tt

  unfoldable pub apply_failed : View → Step Unit
  unfolding handle_tls_failed
  apply_failed msg = if str_eq msg.kind kind_tls then handle_tls_failed msg else pure tt

  abbrev pub viewed : Message → (View → Step Unit) → Step Unit
  viewed msg f = do view ← λ w. (new_view s msg, w); f view

  unfoldable pub handle_started : Message → Step Unit
  unfolding apply_started
  handle_started msg = viewed msg apply_started

  unfoldable pub handle_completed : Message → Step Unit
  unfolding apply_completed
  handle_completed msg = viewed msg apply_completed

  unfoldable pub handle_failed : Message → Step Unit
  unfolding apply_failed
  handle_failed msg = viewed msg apply_failed
