-- ===== src/ScanApi/Transitions.antt =====
-- What POST …/transition of internal/scanapi/transition.go does to the database, the cache and the
-- bus, while nobody else writes to them.
use cafe_persistence.Prelude.{
  String, ◌≡◌, refl, sym, ◌∙◌, ap, subst, Bool, true, false, not, Option, none, some, ◌++◌,
  if◌then◌else◌, Try, ok, err, pure, continue,
}
use cafe_persistence.Domain.{Uuid, ScanResultEntity}
use cafe_persistence.Db.{IsSerial}
use cafe_persistence.Tables.{Tables}
use cafe_persistence.Scan.{is_terminal}
use cafe_persistence.WalletTransition.{Command, Result, outcome_of, retryable, rejected, logical}
use cafe_persistence.WalletTransition.Apply.{apply}
use cafe_persistence.WalletTransition.Spec.{row_at}
use cafe_persistence.WalletTransition.Reported.{no_row, Reports, apply-Reports, logical_terminal}
use cafe_persistence.ScanApi.Text.{trim_space}
use cafe_persistence.ScanApi.Transition.{TransitionBody, transition_command}
use cafe_persistence.ScanApi.Accepted.{transition_command-writable}
use cafe_persistence.ScanApi.Http.{
  Response, HttpRequest, wallet_scan, with_value, Backend, Session, found, require_user_id,
  parse_scan_id_path,
}
use cafe_persistence.ScanApi.TransitionRoute.{
  transition_response, request_of, apply_command, transition, apply_wallet_transition,
}
use cafe_persistence.ScanApi.Projection.{
  Silence, Projects, projected_row, value_of, is_ready_sent, messages_of,
  project_transition-Projects,
}
use cafe_persistence.ScanApi.Within.{
  found-Within, require_user_id-Within, parse_scan_id_path-Within, require_user_id-parse_uuid,
}
use cafe_persistence.ScanApi.Guards.{
  at_rest, after_guard, found-some, parse_scan_id_path-parse_uuid,
}

-- Apply on the database of the handler, which may be nil
abbrev pub applied_to : (b : Backend) → Uuid → Command → Session b → Result × b.sql.Conn
applied_to b scan_id cmd s =
    if not b.has_wallet_db
    then (outcome_of retryable "", s.sql)
    else apply b.entity_codec b.sql b.has_ledger scan_id cmd s.sql

-- The request names a user and a scan, and its body is let through as the command.
pub record Commands (b : Backend) (r : HttpRequest) (scan_id : Uuid) (cmd : Command) : Type 0 where
  pub user_id : Uuid
  pub body : TransitionBody
  pub header : b.codec.parse_uuid (trim_space r.header_user_id) ≡ some user_id
  pub path : b.codec.parse_uuid (trim_space r.path_scan_id) ≡ some scan_id
  pub decoded : r.transition_body ≡ some body
  pub command : transition_command (request_of b user_id) body ≡ some cmd

-- From the session `s`, the request is answered and leaves `s'`.
pub data Serves (b : Backend) (r : HttpRequest) (s s' : Session b) (answer : Try Response Response)
    : Type 0 where
  stopped : (response : Response) → answer ≡ err response → s' ≡ s → Serves b r s s' answer
  refused :
      (user_id : Uuid) (body : TransitionBody)
      → b.codec.parse_uuid (trim_space r.header_user_id) ≡ some user_id
      → r.transition_body ≡ some body
      → transition_command (request_of b user_id) body ≡ none
      → answer ≡ ok (transition_response (outcome_of rejected "") false false)
      → s' ≡ s
      → Serves b r s s' answer
  unprojected :
      (scan_id : Uuid) (cmd : Command) (res : Result)
      → Commands b r scan_id cmd
      → applied_to b scan_id cmd s ≡ (res, s'.sql)
      → Silence b (projected_row res)
      → answer ≡ ok (transition_response res false false)
      → b.cache.seen s'.cache ≡ b.cache.seen s.cache
      → b.bus.seen s'.bus ≡ b.bus.seen s.bus
      → Serves b r s s' answer
  projected :
      (scan_id : Uuid) (cmd : Command) (res : Result) (stored : ScanResultEntity) (value : String)
      (c₁ c₂ : b.bus.Conn)
      → Commands b r scan_id cmd
      → applied_to b scan_id cmd s ≡ (res, s'.sql)
      → row_at scan_id (b.sql.seen s'.sql) ≡ some stored
      → is_terminal stored.status ≡ true
      → res.status ≡ stored.status
      → value_of b stored ≡ some value
      → answer ≡ ok (transition_response res true (is_ready_sent b c₁))
      → b.cache.seen s'.cache
        ≡ with_value (wallet_scan stored.user_id stored.address) value (b.cache.seen s.cache)
      → b.bus.seen s'.bus ≡ b.bus.seen s.bus ++ messages_of b stored c₁ c₂
      → Serves b r s s' answer

-- The row that is projected is stored with the status of the result.
IsStored : Uuid → Tables → Result → Type 0
IsStored scan_id t res =
    (row : ScanResultEntity)
    → projected_row res ≡ some row
    → is_terminal row.status ≡ true
    → (row_at scan_id t ≡ some row) × (res.status ≡ row.status)

if_kept :
    (c : Bool) (q : Option ScanResultEntity) (row : ScanResultEntity)
    → (if c then q else none) ≡ some row
    → q ≡ some row
if_kept true q row h = h
if_kept false q row h = cc

reported_row :
    (row ent : ScanResultEntity)
    → row ≡ record ent { status = logical ent.status }
    → is_terminal row.status ≡ true
    → ent ≡ row
reported_row row ent e terminal =
    let same =
      logical_terminal ent.status
        (subst (λ (x : ScanResultEntity). is_terminal x.status ≡ true) e terminal) in
    ap (λ t. record ent { status = t }) (sym same) ∙ sym e

Reports-IsStored :
    (scan_id : Uuid) (t : Tables) (res : Result) → Reports scan_id t res → IsStored scan_id t res
unfolding IsStored
Reports-IsStored scan_id t res reports row h terminal =
    let (ent, found, e, status) = reports row (if_kept _ res.row row h) in
    let same = reported_row row ent e terminal in
    (found ∙ ap some same, status ∙ ap (λ (x : ScanResultEntity). x.status) (sym e))

module _ (b : Backend) where
  if_db :
      (wired : Bool) (res res' : Result) (c : b.sql.Conn) (s : Session b)
      → let out = if◌then◌else◌ {A = Result × b.sql.Conn} (not wired) (res, s.sql) (res', c) in
        ◌≡◌ {A = Try Response Result × Session b}
          (if not wired then (ok res, s) else (ok res', record s { sql = c }))
          (ok out.0, record s { sql = out.1 })
  if_db true res res' c s = refl
  if_db false res res' c s = refl

  pub apply_command_lem :
      (scan_id : Uuid) (cmd : Command) (s : Session b)
      → let (res, c) = applied_to b scan_id cmd s in
        apply_command b scan_id cmd s ≡ (ok res, record s { sql = c })
  unfolding apply_command
  apply_command_lem scan_id cmd s = if_db b.has_wallet_db _ _ _ s

module _ (b : Backend) (sql : IsSerial b.sql) (cache : IsSerial b.cache) (bus : IsSerial b.bus)
    (r : HttpRequest) (s : Session b) where
  abbrev Served : Try Response Response × Session b → Type 0
  Served out = Serves b r s out.1 out.0

  if_db-Reports :
      (wired : Bool) (scan_id : Uuid) (res : Result) (out : Result × b.sql.Conn)
      → res.row ≡ none
      → Reports scan_id (b.sql.seen out.1) out.0
      → let out' = if not wired then (res, s.sql) else out in
        Reports scan_id (b.sql.seen out'.1) out'.0
  if_db-Reports true scan_id res out e h = h
  if_db-Reports false scan_id res out e h = λ row h. no_row e h

  applied_to-Reports :
      (scan_id : Uuid) (cmd : Command)
      → Commands b r scan_id cmd
      → let (res, c) = applied_to b scan_id cmd s in Reports scan_id (b.sql.seen c) res
  applied_to-Reports scan_id cmd k =
      let (new, writable) =
        transition_command-writable b.entity_codec (request_of b k.user_id) k.body cmd scan_id
          k.command in
      if_db-Reports b.has_wallet_db scan_id (outcome_of retryable "") _ refl
        (apply-Reports b.entity_codec b.sql b.has_ledger scan_id cmd new s.sql sql writable)

  projection-Served :
      (scan_id : Uuid) (cmd : Command) (res : Result) (c : b.sql.Conn) (s' : Session b)
      (flags : Bool × Bool)
      → Commands b r scan_id cmd
      → applied_to b scan_id cmd s ≡ (res, c)
      → IsStored scan_id (b.sql.seen c) res
      → Projects b (projected_row res) (record s { sql = c }) s' flags
      → Served (ok (transition_response res flags.0 flags.1), s')
  unfolding IsStored
  projection-Served scan_id cmd res c s' flags k out stored
        (Projects.silent why e same_sql same_cache same_bus) =
      Serves.unprojected scan_id cmd res k (out ∙ ap (λ x. (res, x)) (sym same_sql)) why
        (ap (λ (f : Bool × Bool). ok (transition_response res f.0 f.1)) e) same_cache same_bus
  projection-Served scan_id cmd res c s' flags k out stored
        (Projects.projected ent value c₁ c₂ row terminal encoded e same_sql saved sent) =
      let (found, status) = stored ent row terminal in
      Serves.projected scan_id cmd res ent value c₁ c₂ k (out ∙ ap (λ x. (res, x)) (sym same_sql))
        (ap (λ x. row_at scan_id (b.sql.seen x)) same_sql ∙ found) terminal status encoded
        (ap (λ (f : Bool × Bool). ok (transition_response res f.0 f.1)) e) saved sent

  answered_with :
      (res : Result) (q : Try Response (Bool × Bool)) (s' : Session b) (flags : Bool × Bool)
      → q ≡ ok flags
      → Served (ok (transition_response res flags.0 flags.1), s')
      → Served (continue q (λ f. pure (transition_response res f.0 f.1)) s')
  answered_with res q s' flags e h = rw e h

  transition-Served :
      (scan_id : Uuid) (cmd : Command)
      → Commands b r scan_id cmd
      → Served (transition b scan_id (some cmd) s)
  transition-Served scan_id cmd k =
      let (res, c) = applied_to b scan_id cmd s in
      let (flags, answer, projects) =
        project_transition-Projects b cache bus res (record s { sql = c }) in
      rw (apply_command_lem b scan_id cmd s) (
        answered_with res _ _ flags answer (
          projection-Served scan_id cmd res c _ flags k refl
            (Reports-IsStored scan_id _ res (applied_to-Reports scan_id cmd k)) projects))

  accepted-Served :
      (user_id scan_id : Uuid) (body : TransitionBody)
      → b.codec.parse_uuid (trim_space r.header_user_id) ≡ some user_id
      → b.codec.parse_uuid (trim_space r.path_scan_id) ≡ some scan_id
      → r.transition_body ≡ some body
      → (q : Option Command) → transition_command (request_of b user_id) body ≡ q
      → Served (transition b scan_id q s)
  accepted-Served user_id scan_id body header path decoded none e =
      Serves.refused user_id body header decoded e refl refl
  accepted-Served user_id scan_id body header path decoded (some cmd) e =
      transition-Served scan_id cmd (record {
        user_id = user_id;
        body = body;
        header = header;
        path = path;
        decoded = decoded;
        command = e;
      })

  -- The endpoint answers a request early and touches nothing, or refuses its body and touches
  -- nothing, or it runs Apply. Then it leaves the cache and the bus as they were and says so, for
  -- one of the reasons of `Silence`; or the scan is terminal, the row that the database now holds
  -- of it is saved in the cache under its owner and address, and the bus is given no message but
  -- those of that row, the ready message exactly if the answer says so.
  pub apply_wallet_transition-Serves :
      let (answer, s') = apply_wallet_transition b r s in Serves b r s s' answer
  unfolding apply_wallet_transition
  apply_wallet_transition-Serves =
      let stops = λ (e : Response). Serves.stopped e refl refl in
      after_guard b (Serves b r s) (require_user_id b r) _ s
        (require_user_id-Within b (at_rest b) r) stops
        λ user_id header.
          after_guard b (Serves b r s) (parse_scan_id_path b r) _ s
            (parse_scan_id_path-Within b (at_rest b) r) stops
            λ scan_id path.
              after_guard b (Serves b r s) (found b _ r.transition_body) _ s
                (found-Within b (at_rest b) _ r.transition_body) stops
                λ body decoded.
                  accepted-Served user_id scan_id body
                    (require_user_id-parse_uuid b r s user_id header)
                    (parse_scan_id_path-parse_uuid b r s scan_id path)
                    (found-some b _ r.transition_body s body decoded) _ refl
