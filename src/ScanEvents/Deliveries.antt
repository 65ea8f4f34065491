-- ===== src/ScanEvents/Deliveries.antt =====
-- The limit of a user for TLS scans, over the messages that the handlers receive.
use cafe_persistence.Prelude.{
  ◌≤◌, String, ◌≡◌, refl, Bool, true, false, not, ◌&&◌, Option, none, some, List, [], ◌∷◌,
  if◌then◌else◌, str_eq, is_non_positive, pos_part, Try, ok, err, Exec, pure, continue, ◌>>=◌,
}
use cafe_persistence.Domain.{Uuid, kind_endpoint}
use cafe_persistence.Domain.Tls.{TlsScanResult}
use cafe_persistence.Db.{Error, IsSerial, statement}
use cafe_persistence.Scan.{success, failed, valid_transition}
use cafe_persistence.Tables.{Tables}
use cafe_persistence.Ledger.Quota.{credits}
use cafe_persistence.PlanLimit.{endpoint_limit}
use cafe_persistence.ScanEvents.{
  kind_tls, Ready, publish, saved, failure, set_key, View, Message, Services, user_pointer,
  new_view, decode_result,
}
use cafe_persistence.ScanEvents.Handlers.{
  World, handle_tls_completed, handle_tls_failed, apply_started, apply_completed, apply_failed,
  handle_started, handle_completed, handle_failed,
}
use cafe_persistence.ScanEvents.Handlers
use cafe_persistence.ScanEvents.Subscriber.{
  Subject, scan_started, scan_completed, scan_failed, Decoders, Delivery, handled, receive,
  receive_all,
}
use cafe_persistence.ScanEvents.Limited

module _ (s : Services) (serial : IsSerial s.db) (t : Tables) (user_id : Uuid)
    (limited : (endpoint_limit user_id t).1 ≡ false)
    (positive : is_non_positive (endpoint_limit user_id t).0 ≡ false) where
  abbrev Inv : Tables → Type 0
  Inv = Limited.Inv s serial t user_id limited positive

  record Safe {A : Type 0} (m : Exec (World s) Error A) : Type 0 where
    at : (w : World s) → Inv (s.db.seen w.conn) → Inv (s.db.seen (m w).1.conn)

  continue-Inv :
      {A B : Type 0} (q : Try Error A) (w : World s) (f : A → Exec (World s) Error B)
      → Inv (s.db.seen w.conn)
      → ((a : A) → Safe (f a))
      → Inv (s.db.seen (continue q f w).1.conn)
  continue-Inv (ok a) w f h k = (k a).at w h
  continue-Inv (err e) w f h k = h

  bind-Safe :
      {A B : Type 0} (m : Exec (World s) Error A) {f : A → Exec (World s) Error B}
      → Safe m
      → ((a : A) → Safe (f a))
      → Safe (m >>= f)
  bind-Safe m {f} h k = record { at = λ w i. continue-Inv (m w).0 (m w).1 f (h.at w i) k }

  if-Safe :
      {A : Type 0} (c : Bool) {m n : Exec (World s) Error A}
      → Safe m
      → Safe n
      → Safe (if c then m else n)
  if-Safe true h k = h
  if-Safe false h k = k

  answer-Safe : {A : Type 0} (q : Try Error A) → Safe (λ w. (q, w))
  answer-Safe q = record { at = λ w h. h }

  on_db-Safe :
      {A : Type 0} (m : Exec s.db.Conn Error A)
      → Limited.Keeps s serial t user_id limited positive m
      → Safe (Handlers.on_db s m)
  on_db-Safe m h = record { at = λ w i. h.at w.conn i }

  on_cache-Safe : {A : Type 0} (m : Exec s.cache.Conn Error A) → Safe (Handlers.on_cache s m)
  on_cache-Safe m = record { at = λ w h. h }

  either_way :
      (wired : Bool) (ready : Ready)
      → Safe (λ w.
        if wired
        then (ok tt, record w { nats = (statement s.bus (publish ready) w.nats).1 })
        else (ok tt, w))
  either_way true ready = record { at = λ w h. h }
  either_way false ready = record { at = λ w h. h }

  publish-Safe : (ready : Ready) → Safe (Handlers.publish_scan_ready s ready)
  publish-Safe ready = either_way s.has_nats ready

  peek_status-Safe : (scan_id : Uuid) → Safe (Handlers.peek_status s scan_id)
  peek_status-Safe scan_id = record {
    at = λ w h. (Limited.get_status-Keeps s serial t user_id limited positive scan_id).at w.conn h;
  }

  announce-Safe :
      (msg : View) (result : TlsScanResult) (acquired : Bool)
      → Safe (Handlers.announce s msg result acquired)
  unfolding Handlers.announce
  announce-Safe msg result acquired =
      if-Safe acquired
        (bind-Safe _
          (on_cache-Safe (statement s.cache (set_key (Handlers.cache_key s msg) (saved result))))
          λ u. publish-Safe (Handlers.ready_tls s msg "success"))
        (publish-Safe (Handlers.ready_tls s msg "failed"))

  completed-Safe : (msg : View) → Safe (handle_tls_completed s msg)
  unfolding handle_tls_completed
  completed-Safe msg = bind-Safe _ (peek_status-Safe msg.scan_id) λ current.
      if-Safe (not (valid_transition current success)) (answer-Safe (ok tt)) (
        bind-Safe _ (answer-Safe (decode_result s msg.result)) λ result.
          bind-Safe _
            (on_db-Safe _ (
              Limited.commit-Keeps s serial t user_id limited positive msg
                (Handlers.entity_of s msg result) result))
            λ acquired. announce-Safe msg result acquired)

  failed-Safe : (msg : View) → Safe (handle_tls_failed s msg)
  unfolding handle_tls_failed
  failed-Safe msg =
      bind-Safe _
        (on_db-Safe _ (Limited.get_status-Keeps s serial t user_id limited positive msg.scan_id))
        λ current.
          if-Safe (not (str_eq current "") && not (valid_transition current failed))
            (answer-Safe (ok tt))
            (bind-Safe _
              (on_db-Safe _ (
                Limited.persist_tls_failure-Keeps s serial t user_id limited positive msg.scan_id
                  (user_pointer msg.user_id) msg.endpoint msg.error))
              λ u.
                bind-Safe _
                  (on_cache-Safe
                    (statement s.cache (set_key (Handlers.cache_key s msg) (failure msg.error))))
                  λ u. publish-Safe (Handlers.ready_tls s msg "failed"))

  started-Safe : (msg : View) → Safe (apply_started s msg)
  unfolding apply_started
  started-Safe msg =
      if-Safe (str_eq msg.kind kind_tls)
        (on_db-Safe _ (
          Limited.on_started-Keeps s serial t user_id limited positive msg.scan_id
            (user_pointer msg.user_id) msg.endpoint))
        (answer-Safe (ok tt))

  viewed-Safe :
      (msg : Message) (f : View → Exec (World s) Error (Unit {0}))
      → ((view : View) → Safe (f view))
      → Safe (Handlers.viewed s msg f)
  viewed-Safe msg f h = bind-Safe _ (answer-Safe (new_view s msg)) h

  handled-Inv :
      (decoders : Decoders) (f : Message → Exec (World s) Error (Unit {0})) (m : Option Message)
      (w : World s)
      → ((msg : Message) → Safe (f msg))
      → Inv (s.db.seen w.conn)
      → Inv (s.db.seen (handled s decoders f m w).conn)
  handled-Inv decoders f none w h i = i
  handled-Inv decoders f (some msg) w h i = (h msg).at w i

  if_tls-Safe :
      (msg : View) (m : Exec (World s) Error (Unit {0}))
      → Safe m
      → Safe (if str_eq msg.kind kind_tls then m else pure tt)
  if_tls-Safe msg m h = if-Safe (str_eq msg.kind kind_tls) h (answer-Safe (ok tt))

  receive-Inv :
      (decoders : Decoders) (subject : Subject) (payload : String) (w : World s)
      → Inv (s.db.seen w.conn)
      → Inv (s.db.seen (receive s decoders subject payload w).conn)
  unfolding receive handle_started handle_completed handle_failed apply_completed apply_failed
  receive-Inv decoders scan_started payload w h =
      handled-Inv decoders _ (decoders.decode_started payload) w
        (λ msg. viewed-Safe msg _ started-Safe) h
  receive-Inv decoders scan_completed payload w h =
      handled-Inv decoders _ (decoders.decode_completed payload) w
        (λ msg. viewed-Safe msg _ λ view. if_tls-Safe view _ (completed-Safe view)) h
  receive-Inv decoders scan_failed payload w h =
      handled-Inv decoders _ (decoders.decode_failed payload) w
        (λ msg. viewed-Safe msg _ λ view. if_tls-Safe view _ (failed-Safe view)) h

  receive_all-Inv :
      (decoders : Decoders) (ds : List Delivery) (w : World s)
      → Inv (s.db.seen w.conn)
      → Inv (s.db.seen (receive_all s decoders ds w).conn)
  unfolding receive_all
  receive_all-Inv decoders [] w h = h
  receive_all-Inv decoders (d ∷ ds) w h =
      receive_all-Inv decoders ds (receive s decoders d.subject d.payload w)
        (receive-Inv decoders d.subject d.payload w h)

-- However many messages arrive, of any kind and payload, in any order, and whatever statements,
-- cache writes and publications fail: while nobody else writes, a user whose plan has a positive
-- limit for TLS scans, and who has no more credits than the limit, never has more.
pub receive_all-within :
    (s : Services) (decoders : Decoders) (user_id : Uuid) (ds : List Delivery) (w : World s)
    → IsSerial s.db
    → (endpoint_limit user_id (s.db.seen w.conn)).1 ≡ false
    → is_non_positive (endpoint_limit user_id (s.db.seen w.conn)).0 ≡ false
    → credits user_id kind_endpoint (s.db.seen w.conn)
      ≤ pos_part (endpoint_limit user_id (s.db.seen w.conn)).0
    → credits user_id kind_endpoint (s.db.seen (receive_all s decoders ds w).conn)
      ≤ pos_part (endpoint_limit user_id (s.db.seen w.conn)).0
receive_all-within s decoders user_id ds w serial limited positive within =
    (receive_all-Inv s serial (s.db.seen w.conn) user_id limited positive decoders ds w
      (record { same_users = refl; same_plans = refl; within = within })).within
