-- ===== src/ScanApi/Resend.antt =====
-- A transition of internal/scanapi/transition.go that is sent again once it was applied.
use cafe_persistence.Prelude.{
  String, ◌≡◌, refl, sym, ◌∙◌, ap, Bool, true, false, not, ◌&&◌, Option, none, some, ◌∷◌, ◌++◌,
  arith, subst, if◌then◌else◌, str_eq, str_eq_iff, Bool-cases, Try, ok, err, inl, inr,
}
use cafe_persistence.Domain.{Uuid, ScanResultEntity}
use cafe_persistence.Db.{Database, IsSerial}
use cafe_persistence.Scan.{success, is_terminal}
use cafe_persistence.WalletTransition.{Command, Result, already_applied, logical, same_transition}
use cafe_persistence.WalletTransition.Apply.{apply, reloaded}
use cafe_persistence.WalletTransition.Spec.{row_at}
use cafe_persistence.WalletTransition.Transaction.{apply-refines}
use cafe_persistence.WalletTransition.Guarantees.{Fault-found, replay_cases}
use cafe_persistence.ScanApi.Transition.{transition_command}
use cafe_persistence.ScanApi.Accepted.{transition_command-writable}
use cafe_persistence.ScanApi.Http.{
  Response, HttpRequest, wallet_scan, with_value, scan_ready, wallet_observed, Backend, Session,
}
use cafe_persistence.ScanApi.TransitionRoute.{
  transition_response, request_of, ready_of, observed_of, apply_wallet_transition,
}
use cafe_persistence.ScanApi.Projection.{Silence, projected_row, value_of, messages_of}
use cafe_persistence.ScanApi.Messages.{when}
use cafe_persistence.ScanApi.Answers.{IsAddressed, addressed-ok}
use cafe_persistence.ScanApi.Transitions.{
  applied_to, Commands, Serves, apply_wallet_transition-Serves,
}

-- No call on the database fails.
abbrev pub NeverFails : {T : Type 0} → Database T → Type 0
NeverFails db = (c : db.Conn) → db.fails c ≡ false

clash : {A : Type 0} {c : Bool} → c ≡ true → c ≡ false → A
clash h k = cc

never_stopped : {A : Type 0} {q : Try Response Response} {e a : Response} → q ≡ ok a → q ≡ err e → A
never_stopped h k = cc

some_other : {A B : Type 0} {q : Option A} {a : A} → q ≡ some a → q ≡ none → B
some_other h k = cc

same_some : {A : Type 0} {q : Option A} {x y : A} → q ≡ some x → q ≡ some y → x ≡ y
same_some h k = cc

-- What a command finds that was applied before.
abbrev pub replay_of : ScanResultEntity → Result
replay_of ent = record { outcome = already_applied; status = ent.status; row = some ent }

blank_terminal : {A : Type 0} → is_terminal "" ≡ true → A
unfolding is_terminal
blank_terminal h = cc

terminal_logical : (status : String) → is_terminal status ≡ true → logical status ≡ status
unfolding logical
terminal_logical status h = elim (Bool-cases (str_eq status "")) [
  | inl blank ↦
      blank_terminal (subst (λ t. is_terminal t ≡ true) ((str_eq_iff status "").0 blank) h)
  | inr given ↦ rw given refl
]

reloaded_terminal :
    (ent : ScanResultEntity)
    → is_terminal ent.status ≡ true
    → reloaded already_applied ent ≡ replay_of ent
reloaded_terminal ent h =
    ap
      (λ t. record {
        outcome = already_applied;
        status = t;
        row = some (record ent { status = t });
      })
      (terminal_logical ent.status h)

sent_when_up :
    (x wired v down : Bool)
    → wired ≡ true
    → down ≡ false
    → (x && (wired && (v && not down))) ≡ (x && v)
sent_when_up x wired v down h k = ground (arith, h, k)

ready_when_up : (wired down : Bool) → wired ≡ true → down ≡ false → (wired && not down) ≡ true
ready_when_up wired down h k = rw (h, k) refl

module _ (b : Backend) (r : HttpRequest) where
  -- A request stands for one command.
  one_command :
      (i j : Uuid) (c d : Command) → Commands b r i c → Commands b r j d → (i ≡ j) × (c ≡ d)
  one_command i j c d k l =
      let user = same_some k.header l.header in
      let body = same_some k.decoded l.decoded in
      let command : transition_command (request_of b k.user_id) k.body ≡ some d =
        (λ t. transition_command (request_of b (user t)) (body t)) ∙ l.command in
      (same_some k.path l.path, same_some k.command command)

module _ (b : Backend) (s : Session b) (ent : ScanResultEntity) where
  -- What a resent transition leaves, once nothing fails.
  pub record Reprojected (value : String) (s' : Session b) (answer : Try Response Response)
      : Type 0 where
    pub answered : answer ≡ ok (transition_response (replay_of ent) true true)
    pub kept : b.sql.seen s'.sql ≡ b.sql.seen s.sql
    pub saved :
        b.cache.seen s'.cache
        ≡ with_value (wallet_scan ent.user_id ent.address) value (b.cache.seen s.cache)
    pub sent :
        b.bus.seen s'.bus
        ≡ b.bus.seen s.bus
          ++ (scan_ready (ready_of ent)
              ∷ when
                  (str_eq ent.status success && b.is_valid_event (observed_of b ent))
                  (wallet_observed (observed_of b ent)))

module _ (b : Backend) (r : HttpRequest) (s : Session b) (scan_id : Uuid) (cmd : Command)
    (ent : ScanResultEntity) (sql : IsSerial b.sql) (k : Commands b r scan_id cmd)
    (up : NeverFails b.sql) (found : row_at scan_id (b.sql.seen s.sql) ≡ some ent)
    (same : same_transition ent cmd.transition_id ≡ true)
    (terminal : is_terminal ent.status ≡ true) where
  abbrev Replays : Result × b.sql.Conn → Type 0
  Replays out = (out.0 ≡ replay_of ent) × (b.sql.seen out.1 ≡ b.sql.seen s.sql)

  apply-Replays : Replays (apply b.entity_codec b.sql b.has_ledger scan_id cmd s.sql)
  apply-Replays =
      let (new, writable) =
        transition_command-writable b.entity_codec (request_of b k.user_id) k.body cmd scan_id
          k.command in
      elim (apply-refines b.entity_codec b.sql b.has_ledger scan_id cmd new s.sql sql writable) [
        | inl spec ↦
            let (e, kept) = replay_cases b.has_ledger scan_id cmd new _ _ _ ent found same spec in
            (e ∙ reloaded_terminal ent terminal, kept)
        | inr failed ↦
            let (c, down) = Fault-found b.sql scan_id _ ent found failed.0 in clash down (up c)
      ]

  if_db-Replays :
      (wired : Bool) (other out : Result × b.sql.Conn)
      → wired ≡ true
      → Replays out
      → Replays (if not wired then other else out)
  if_db-Replays true other out e h = h
  if_db-Replays false other out e h = cc

  applied_to-Replays : b.has_wallet_db ≡ true → Replays (applied_to b scan_id cmd s)
  applied_to-Replays wired = if_db-Replays b.has_wallet_db _ _ wired apply-Replays

  not_silent :
      {A : Type 0} (value : String) (res : Result)
      → b.has_cache ≡ true
      → NeverFails b.cache
      → value_of b ent ≡ some value
      → res ≡ replay_of ent
      → Silence b (projected_row res)
      → A
  not_silent value res wired cache encoded e (Silence.no_row h) = some_other (ap projected_row e) h
  not_silent value res wired cache encoded e (Silence.not_terminal row h other) =
      let row_is = same_some (ap projected_row e) h in
      clash (subst (λ (x : ScanResultEntity). is_terminal x.status ≡ true) row_is terminal) other
  not_silent value res wired cache encoded e (Silence.no_cache h) = clash wired h
  not_silent value res wired cache encoded e (Silence.not_encoded row h other) =
      let row_is = same_some (ap projected_row e) h in
      some_other (subst (λ x. value_of b x ≡ some value) row_is encoded) other
  not_silent value res wired cache encoded e (Silence.cache_failed c h) = clash h (cache c)

  module _ (value : String) (db_wired : b.has_wallet_db ≡ true) (cache_wired : b.has_cache ≡ true)
      (bus_wired : b.has_events ≡ true) (cache_up : NeverFails b.cache) (bus_up : NeverFails b.bus)
      (encoded : value_of b ent ≡ some value) where
    replay_at :
        (scan_id' : Uuid) (cmd' : Command) (out : Result × b.sql.Conn)
        → Commands b r scan_id' cmd'
        → applied_to b scan_id' cmd' s ≡ out
        → Replays out
    replay_at scan_id' cmd' out l e =
        let (i, c) = one_command b r scan_id scan_id' cmd cmd' k l in
        subst Replays ((λ t. applied_to b (i t) (c t) s) ∙ e) (applied_to-Replays db_wired)

    messages-up :
        (row : ScanResultEntity) (c₁ c₂ : b.bus.Conn)
        → messages_of b row c₁ c₂
          ≡ scan_ready (ready_of row)
            ∷ when
                (str_eq row.status success && b.is_valid_event (observed_of b row))
                (wallet_observed (observed_of b row))
    messages-up row c₁ c₂ = λ t.
        when (ready_when_up b.has_events (b.bus.fails c₁) bus_wired (bus_up c₁) t)
          (scan_ready (ready_of row))
        ++ when
            (sent_when_up (str_eq row.status success) b.has_events
              (b.is_valid_event (observed_of b row)) (b.bus.fails c₂) bus_wired (bus_up c₂) t)
            (wallet_observed (observed_of b row))

    Serves-Reprojected :
        (s' : Session b) (answer : Try Response Response) (response : Response)
        → answer ≡ ok response
        → Serves b r s s' answer
        → Reprojected b s ent value s' answer
    Serves-Reprojected s' answer response e (Serves.stopped _ h _) = never_stopped e h
    Serves-Reprojected s' answer response e (Serves.refused user_id body header decoded h _ _) =
        let user = same_some k.header header in
        let same_body = same_some k.decoded decoded in
        let command : transition_command (request_of b k.user_id) k.body
            ≡ transition_command (request_of b user_id) body =
          λ t. transition_command (request_of b (user t)) (same_body t) in
        some_other (sym command ∙ k.command) h
    Serves-Reprojected s' answer response e (Serves.unprojected i c res l out silence _ _ _) =
        not_silent value res cache_wired cache_up encoded (replay_at i c _ l out).0 silence
    Serves-Reprojected s' answer response e
          (Serves.projected i c res stored v c₁ c₂ l out at_id _ _ v_is h saved sent) =
        let (is_replay, kept) = replay_at i c _ l out in
        let ids = (one_command b r scan_id i cmd c k l).0 in
        let there : row_at scan_id (b.sql.seen s.sql) ≡ row_at i (b.sql.seen s'.sql) =
          λ t. row_at (ids t) (sym kept t) in
        let row_is : stored ≡ ent = same_some at_id (sym there ∙ found) in
        let v_same : v ≡ value = same_some v_is (ap (value_of b) row_is ∙ encoded) in
        let ready = ready_when_up b.has_events (b.bus.fails c₁) bus_wired (bus_up c₁) in
        record {
          answered = h ∙ λ t. ok (transition_response (is_replay t) true (ready t));
          kept = kept;
          saved = saved ∙ λ t.
              with_value (wallet_scan (row_is t).user_id (row_is t).address) (v_same t)
                (b.cache.seen s.cache);
          sent =
              sent
              ∙ ap (λ ms. b.bus.seen s.bus ++ ms)
                  (ap (λ x. messages_of b x c₁ c₂) row_is ∙ messages-up ent c₁ c₂);
        }

-- Once nothing fails and nobody else writes, where database, cache and bus are wired, a command of
-- a request with a user, who is not the nil UUID, and a path is sent again with success: if the
-- stored row of its scan carries its transition id, is terminal and can be encoded, it is answered
-- as applied already, projected and published; the tables are as they were, the cache holds what is
-- stored of the scan, and the bus is given its ready message, and the observed wallet after it
-- where the scan succeeded and its event is valid.
pub apply_wallet_transition-resent :
    (b : Backend) (r : HttpRequest) (s : Session b) (scan_id : Uuid) (cmd : Command)
    (ent : ScanResultEntity) (value : String) (k : Commands b r scan_id cmd)
    → IsAddressed b r k.user_id
    → IsSerial b.sql
    → IsSerial b.cache
    → IsSerial b.bus
    → NeverFails b.sql
    → NeverFails b.cache
    → NeverFails b.bus
    → b.has_wallet_db ≡ true
    → b.has_cache ≡ true
    → b.has_events ≡ true
    → row_at scan_id (b.sql.seen s.sql) ≡ some ent
    → same_transition ent cmd.transition_id ≡ true
    → is_terminal ent.status ≡ true
    → value_of b ent ≡ some value
    → let (answer, s') = apply_wallet_transition b r s in Reprojected b s ent value s' answer
apply_wallet_transition-resent b r s scan_id cmd ent value k addressed sql cache bus sql_up cache_up
      bus_up db_wired cache_wired bus_wired found same terminal encoded =
    let (response, e) = addressed-ok b r s scan_id cmd k addressed cache bus in
    Serves-Reprojected b r s scan_id cmd ent sql k sql_up found same terminal value db_wired
      cache_wired bus_wired cache_up bus_up encoded _ _ response e
      (apply_wallet_transition-Serves b sql cache bus r s)
