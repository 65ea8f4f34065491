-- ===== src/ScanApi/Messages.antt =====
-- What the messages of internal/scanapi/transition.go leave on the bus, while nobody else
-- publishes.
use mathlib.Core.List.{append-nil, append_assoc}
use cafe_persistence.Prelude.{
  ◌≡◌, refl, sym, ◌∙◌, ap, Bool, true, false, not, ◌&&◌, ◌||◌, List, [], ◌∷◌, ◌++◌, if◌then◌else◌,
  Try, ok, err, pure, continue, ◌>>=◌, ◌>>◌, Bool-cases, inl, inr,
}
use cafe_persistence.Domain.{ScanResultEntity}
use cafe_persistence.Db.{IsSerial, statement}
use cafe_persistence.ScanApi.Http.{
  Response, BusMessage, scan_ready, wallet_observed, Backend, Session, Handler,
}
use cafe_persistence.ScanApi.TransitionRoute.{
  ready_of, try_bus, publish_json, publish_scan_ready, observed_of, publish_wallet_observed,
}

abbrev pub when : Bool → BusMessage → List BusMessage
when sent message = if sent then message ∷ [] else []

-- Nothing but the messages is added: to the bus, in their order.
pub record Says (b : Backend) (s s' : Session b) (messages : List BusMessage) : Type 0 where
  pub sql : s'.sql ≡ s.sql
  pub cache : s'.cache ≡ s.cache
  pub bus : b.bus.seen s'.bus ≡ b.bus.seen s.bus ++ messages

module _ (b : Backend) where
  Says-nothing : (s : Session b) → Says b s s []
  Says-nothing s = record { sql = refl; cache = refl; bus = sym (append-nil (b.bus.seen s.bus)) }

  Says-both :
      (s s' s'' : Session b) (xs ys : List BusMessage)
      → Says b s s' xs
      → Says b s' s'' ys
      → Says b s s'' (xs ++ ys)
  Says-both s s' s'' xs ys h k = record {
    sql = k.sql ∙ h.sql;
    cache = k.cache ∙ h.cache;
    bus = k.bus ∙ ap (λ zs. zs ++ ys) h.bus ∙ append_assoc (b.bus.seen s.bus) xs ys;
  }

module _ (b : Backend) (serial : IsSerial b.bus) where
  try_bus-publish_json :
      (message : BusMessage) (s : Session b)
      → let (r, s') = try_bus b (publish_json b message) s in
        (r ≡ ok (not (b.bus.fails s.bus))) × Says b s s' (when (not (b.bus.fails s.bus)) message)
  unfolding try_bus publish_json statement
  try_bus-publish_json message s = elim (Bool-cases (b.bus.fails s.bus)) [
    | inl down ↦ rw down (
      refl,
      record {
        sql = refl;
        cache = refl;
        bus = serial.seen-next s.bus (b.bus.seen s.bus) ∙ sym (append-nil (b.bus.seen s.bus));
      },
    )
    | inr up ↦ rw up (refl, record { sql = refl; cache = refl; bus = serial.seen-next s.bus _ })
  ]

  -- Is the ready message of a scan published?
  abbrev pub ready_sent : Session b → Bool
  ready_sent s = b.has_events && not (b.bus.fails s.bus)

  -- The answer of a call that publishes the message, if it does.
  abbrev pub Sends : Session b → Bool → BusMessage → Handler b Bool → Type 0
  Sends s sent message m = ((m s).0 ≡ ok sent) × Says b s (m s).1 (when sent message)

  if_wired :
      (wired sent : Bool) (message : BusMessage) (s : Session b) (m : Handler b Bool)
      → Sends s sent message m
      → Sends s (wired && sent) message (if not wired then pure false else m)
  if_wired true sent message s m h = h
  if_wired false sent message s m h = (refl, Says-nothing b s)

  pub publish_scan_ready_lem :
      (row : ScanResultEntity) (s : Session b)
      → Sends s (ready_sent s) (scan_ready (ready_of row)) (publish_scan_ready b row)
  unfolding publish_scan_ready publish_json
  publish_scan_ready_lem row s =
      if_wired b.has_events _ _ s _ (try_bus-publish_json (scan_ready (ready_of row)) s)

  -- Is a row announced as an observed wallet?
  abbrev pub observed_sent : ScanResultEntity → Session b → Bool
  observed_sent row s =
      b.has_events && (b.is_valid_event (observed_of b row) && not (b.bus.fails s.bus))

  and_then_nothing :
      (q : Try Response Bool) (s : Session b) (sent : Bool)
      → q ≡ ok sent
      → continue q (λ a. pure tt) s ≡ (ok tt, s)
  and_then_nothing (ok a) s sent h = refl
  and_then_nothing (err e) s sent h = cc

  abbrev pub Tells : Session b → List BusMessage → Handler b (Unit {0}) → Type 0
  Tells s messages m = (m s).0 ≡ ok tt × Says b s (m s).1 messages

  if_valid :
      (wired valid sent : Bool) (message : BusMessage) (s : Session b) (m : Handler b Bool)
      → Sends s sent message m
      → Tells s
          (when (wired && (valid && sent)) message)
          (if not wired || not valid then pure tt else (m >> pure tt))
  if_valid true true sent message s m h = rw (and_then_nothing (m s).0 (m s).1 sent h.0) (refl, h.1)
  if_valid true false sent message s m h = (refl, Says-nothing b s)
  if_valid false valid sent message s m h = (refl, Says-nothing b s)

  pub publish_wallet_observed_lem :
      (row : ScanResultEntity) (s : Session b)
      → Tells s
          (when (observed_sent row s) (wallet_observed (observed_of b row)))
          (publish_wallet_observed b row)
  unfolding publish_wallet_observed publish_json
  publish_wallet_observed_lem row s =
      if_valid b.has_events (b.is_valid_event (observed_of b row)) _ _ s _
        (try_bus-publish_json (wallet_observed (observed_of b row)) s)

  pub if_success :
      (c : Bool) (sent : Bool) (message : BusMessage) (s : Session b) (m : Handler b (Unit {0}))
      → Tells s (when sent message) m
      → Tells s (when (c && sent) message) (if c then m else pure tt)
  if_success true sent message s m h = h
  if_success false sent message s m h = (refl, Says-nothing b s)

  abbrev pub send_then : Handler b Bool → Handler b (Unit {0}) → Handler b (Bool × Bool)
  send_then m n = do a ← m; n; pure (true, a)

  pub send_and_tell :
      (m : Handler b Bool) (n : Handler b (Unit {0})) (s : Session b) (sent : Bool)
      (message : BusMessage) (others : List BusMessage)
      → Sends s sent message m
      → Tells (m s).1 others n
      → let (r, s') = send_then m n s in
        (r ≡ ok (true, sent)) × Says b s s' (when sent message ++ others)
  send_and_tell m n s sent message others h k =
      rw (h.0, k.0) (refl, Says-both b s (m s).1 (n (m s).1).1 (when sent message) others h.1 k.1)
