-- ===== src/ScanEvents/Duplicates.antt =====
-- What the handlers do with a message for a TLS scan that has ended.
use cafe_persistence.Prelude.{String, ◌≡◌, refl, true, false, inl, inr, some, str_eq, ok}
use cafe_persistence.Domain.Tls.{TlsScanResultEntity}
use cafe_persistence.Scan.{success, failed, is_terminal}
use cafe_persistence.Scan.Lifecycle.{terminal_absorbs, is_terminal-cases}
use cafe_persistence.Db.{IsSerial, statement}
use cafe_persistence.Storage.Tls.{get_status, select_tls}
use cafe_persistence.Storage.Tls.Writes.{tls_row}
use cafe_persistence.ScanEvents.{View, Services}
use cafe_persistence.ScanEvents.Handlers.{World, handle_tls_completed, handle_tls_failed}

terminal_named : (t : String) → is_terminal t ≡ true → str_eq t "" ≡ false
terminal_named t over = elim (is_terminal-cases t over) [
  | inl e ↦ rw e refl
  | inr (inl e) ↦ rw e refl
  | inr (inr (inl e)) ↦ rw e refl
  | inr (inr (inr e)) ↦ rw e refl
]

module _ (s : Services) (serial : IsSerial s.db) (msg : View) (w : World s)
    (row : TlsScanResultEntity) (found : tls_row msg.scan_id (s.db.seen w.conn) ≡ some row)
    (over : is_terminal row.status ≡ true) (up : s.db.fails w.conn ≡ false) where
  -- the world after the status was read
  abbrev read_only : World s
  read_only = record w { conn = s.db.next w.conn (s.db.seen w.conn) }

  status_read : get_status s.db msg.scan_id w.conn ≡ (ok row.status, read_only.conn)
  unfolding get_status statement select_tls
  status_read = rw (up, found) refl

  completed_ignored : handle_tls_completed s msg w ≡ (ok tt, read_only)
  unfolding handle_tls_completed
  completed_ignored = rw (status_read, terminal_absorbs row.status success over) refl

  -- A completion for a TLS scan that has ended, whose status can be read, is ignored: it is
  -- answered without an error, no table is changed, and Redis and NATS are not called.
  pub duplicate_completion_ignored :
      let (r, w') = handle_tls_completed s msg w in
      (r ≡ ok tt)
      × (s.db.seen w'.conn ≡ s.db.seen w.conn)
      × (w'.redis ≡ w.redis)
      × (w'.nats ≡ w.nats)
  duplicate_completion_ignored = rw completed_ignored (refl, serial.seen-next w.conn _, refl, refl)

  failed_ignored : handle_tls_failed s msg w ≡ (ok tt, read_only)
  unfolding handle_tls_failed
  failed_ignored =
      rw (status_read, terminal_named row.status over, terminal_absorbs row.status failed over) refl

  -- A failure for a TLS scan that has ended, whose status can be read, is ignored in the same way:
  -- it is answered without an error, no table is changed, and Redis and NATS are not called.
  pub late_failure_ignored :
      let (r, w') = handle_tls_failed s msg w in
      (r ≡ ok tt)
      × (s.db.seen w'.conn ≡ s.db.seen w.conn)
      × (w'.redis ≡ w.redis)
      × (w'.nats ≡ w.nats)
  late_failure_ignored = rw failed_ignored (refl, serial.seen-next w.conn _, refl, refl)
