-- ===== src/ScanEvents/Subscriber.antt =====
-- internal/persistence/nats/subscriber.go. NATS is a parameter: it says which subscriptions it
-- refuses and delivers payloads, which the decoders of the lifecycle contract read; `none` is their
-- error. The callbacks of one process run one after the other here.
use cafe_persistence.Prelude.{String, Option, none, some, List, [], ◌∷◌, Try, ok, err}
use cafe_persistence.Db.{Error}
use cafe_persistence.ScanEvents.{Message, Services}
use cafe_persistence.ScanEvents.Handlers.{World, handle_started, handle_completed, handle_failed}

-- lifecycle.SubjectScanStarted and the others
pub data Subject : Type 0 where
  scan_started scan_completed scan_failed : Subject

-- lifecycle.DecodeStarted and the others
pub record Decoders : Type 0 where
  pub decode_started : String → Option Message
  pub decode_completed : String → Option Message
  pub decode_failed : String → Option Message

-- conn.QueueSubscribe, which may refuse
abbrev pub QueueSubscribe : Type 0
QueueSubscribe = Subject → Try Error (Unit {0})

abbrev subscribed :
    Subject → Try Error (Unit {0}) → Try Error (List Subject) → Try Error (List Subject)
subscribed subject (err e) rest = err e
subscribed subject (ok _) (err e) = err e
subscribed subject (ok _) (ok subjects) = ok (subject ∷ subjects)

-- the subscriptions of SubscribeScanEvents, or the first refusal
unfoldable pub subscribe_scan_events : QueueSubscribe → Try Error (List Subject)
subscribe_scan_events queue = subscribed scan_started (queue scan_started) (
    subscribed scan_completed (queue scan_completed)
      (subscribed scan_failed (queue scan_failed) (ok [])))

-- a payload under its subject
pub record Delivery : Type 0 where
  pub subject : Subject
  pub payload : String

module _ (s : Services) (decoders : Decoders) where
  -- An error of a handler is logged; a payload that is not decoded is dropped.
  abbrev pub handled :
      (Message → World s → Try Error (Unit {0}) × World s) → Option Message → World s → World s
  handled f none w = w
  handled f (some msg) w = (f msg w).1

  -- the callback of a subscription
  unfoldable pub receive : Subject → String → World s → World s
  receive scan_started payload = handled (handle_started s) (decoders.decode_started payload)
  receive scan_completed payload = handled (handle_completed s) (decoders.decode_completed payload)
  receive scan_failed payload = handled (handle_failed s) (decoders.decode_failed payload)

  unfoldable pub receive_all : List Delivery → World s → World s
  receive_all [] w = w
  receive_all (d ∷ ds) w = receive_all ds (receive d.subject d.payload w)
