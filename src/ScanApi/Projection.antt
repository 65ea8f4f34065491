-- ===== src/ScanApi/Projection.antt =====
-- What the projection of internal/scanapi/transition.go leaves in the cache and on the bus, while
-- nobody else writes to them.
use cafe_persistence.Prelude.{
  String, ◌≡◌, refl, ◌∙◌, ap, Bool, true, false, not, ◌&&◌, ◌||◌, Option, none, some, List, ◌++◌,
  if◌then◌else◌, str_eq, ok, pure, ◌>>=◌, Bool-cases, inl, inr,
}
use cafe_persistence.Domain.{ScanResultEntity}
use cafe_persistence.Domain.Entity.{to_scan_result}
use cafe_persistence.Db.{IsSerial, statement}
use cafe_persistence.Scan.{success, is_terminal}
use cafe_persistence.WalletTransition.{Result, applied, already_applied}
use cafe_persistence.ScanApi.Http.{
  wallet_scan, with_value, BusMessage, scan_ready, wallet_observed, Backend, Session, Handler,
}
use cafe_persistence.ScanApi.TransitionRoute.{
  ready_of, try_cache, publish_scan_ready, observed_of, save, save_wallet_scan, save_wallet_failure,
  save_encoded, announce, project_terminal, project_row, project_transition,
}
use cafe_persistence.ScanApi.Messages.{
  when, Says, publish_scan_ready_lem, publish_wallet_observed_lem, if_success, send_and_tell,
}

-- what the cache is given for a terminal scan
abbrev pub value_of : (b : Backend) → ScanResultEntity → Option String
value_of b row =
    if str_eq row.status success
    then b.encode_result (to_scan_result b.entity_codec row)
    else some (b.encode_failure row.error)

-- the row that is projected after Apply
abbrev pub projected_row : Result → Option ScanResultEntity
projected_row res =
    if str_eq res.outcome applied || str_eq res.outcome already_applied then res.row else none

-- why a row is not projected
pub data Silence (b : Backend) (row : Option ScanResultEntity) : Type 0 where
  no_row : row ≡ none → Silence b row
  not_terminal :
      (ent : ScanResultEntity) → row ≡ some ent → is_terminal ent.status ≡ false → Silence b row
  no_cache : b.has_cache ≡ false → Silence b row
  not_encoded : (ent : ScanResultEntity) → row ≡ some ent → value_of b ent ≡ none → Silence b row
  cache_failed : (c : b.cache.Conn) → b.cache.fails c ≡ true → Silence b row

-- is it announced that a scan is ready, at a publication on the connection `c`?
abbrev pub is_ready_sent : (b : Backend) → b.bus.Conn → Bool
is_ready_sent b c = b.has_events && not (b.bus.fails c)

-- is a row announced as an observed wallet, at a publication on the connection `c`?
abbrev pub is_observed_sent : (b : Backend) → ScanResultEntity → b.bus.Conn → Bool
is_observed_sent b row c =
    str_eq row.status success
    && (b.has_events && (b.is_valid_event (observed_of b row) && not (b.bus.fails c)))

-- the messages of a row, by the connections on which they are published
abbrev pub messages_of :
    (b : Backend) → ScanResultEntity → b.bus.Conn → b.bus.Conn → List BusMessage
messages_of b row c₁ c₂ =
    when (is_ready_sent b c₁) (scan_ready (ready_of row))
    ++ when (is_observed_sent b row c₂) (wallet_observed (observed_of b row))

-- From the session `s`, the row is projected with the two flags of the answer, and leaves `s'`.
pub data Projects (b : Backend) (row : Option ScanResultEntity) (s s' : Session b)
    (flags : Bool × Bool) : Type 0 where
  silent :
      Silence b row
      → flags ≡ (false, false)
      → s'.sql ≡ s.sql
      → b.cache.seen s'.cache ≡ b.cache.seen s.cache
      → b.bus.seen s'.bus ≡ b.bus.seen s.bus
      → Projects b row s s' flags
  projected :
      (ent : ScanResultEntity) (value : String) (c₁ c₂ : b.bus.Conn)
      → row ≡ some ent
      → is_terminal ent.status ≡ true
      → value_of b ent ≡ some value
      → flags ≡ (true, is_ready_sent b c₁)
      → s'.sql ≡ s.sql
      → b.cache.seen s'.cache
        ≡ with_value (wallet_scan ent.user_id ent.address) value (b.cache.seen s.cache)
      → b.bus.seen s'.bus ≡ b.bus.seen s.bus ++ messages_of b ent c₁ c₂
      → Projects b row s s' flags

module _ (b : Backend) (cache : IsSerial b.cache) (bus : IsSerial b.bus) where
  announce_lem :
      (row : ScanResultEntity) (s : Session b)
      → let (r, s') = announce b row s in
        let c₂ = (publish_scan_ready b row s).1.bus in
        (r ≡ ok (true, is_ready_sent b s.bus)) × Says b s s' (messages_of b row s.bus c₂)
  announce_lem row s =
      let s₁ = (publish_scan_ready b row s).1 in
      send_and_tell b bus (publish_scan_ready b row) _ s _ _ _ (publish_scan_ready_lem b bus row s)
        (if_success b bus (str_eq row.status success) _ _ s₁ _
          (publish_wallet_observed_lem b bus row s₁))

  saved_value :
      (row : ScanResultEntity)
      → save b row ≡ save_encoded b row.user_id row.address (value_of b row)
  unfolding save_wallet_scan save_wallet_failure
  saved_value row = elim (Bool-cases (str_eq row.status success)) [
    | inl win ↦ rw win refl
    | inr lost ↦ rw lost refl
  ]

  module _ (row : ScanResultEntity) (s : Session b) where
    abbrev Projected : Handler b (Bool × Bool) → Type 0
    Projected m =
        (flags : Bool × Bool) × ((m s).0 ≡ ok flags) × Projects b (some row) s (m s).1 flags

    -- after the value is saved
    announced :
        is_terminal row.status ≡ true
        → (value : String) → value_of b row ≡ some value
        → (s₁ : Session b) → s₁.sql ≡ s.sql
        → s₁.bus ≡ s.bus
        → b.cache.seen s₁.cache
          ≡ with_value (wallet_scan row.user_id row.address) value (b.cache.seen s.cache)
        → (flags : Bool × Bool) × ((announce b row s₁).0 ≡ ok flags)
          × Projects b (some row) s (announce b row s₁).1 flags
    announced terminal value e s₁ sql same saved =
        let (answer, says) = announce_lem row s₁ in
        let c₂ = (publish_scan_ready b row s₁).1.bus in
        let messages = messages_of b row s₁.bus c₂ in
        (
          (true, is_ready_sent b s₁.bus),
          answer,
          Projects.projected row value s₁.bus c₂ refl terminal e refl (says.sql ∙ sql)
              (ap b.cache.seen says.cache ∙ saved)
              (says.bus ∙ ap (λ c. b.bus.seen c ++ messages) same),
        )

    saves-Projected :
        is_terminal row.status ≡ true
        → (value : Option String) → value_of b row ≡ value
        → Projected (do
          saved ← try_cache b (save_encoded b row.user_id row.address value)
          if saved then announce b row else pure (false, false))
    unfolding try_cache statement
    saves-Projected terminal none e =
        ((false, false), refl, Projects.silent (Silence.not_encoded row refl e) refl refl refl refl)
    saves-Projected terminal (some value) e = elim (Bool-cases (b.cache.fails s.cache)) [
      | inl down ↦ rw down (
        (false, false),
        refl,
        Projects.silent (Silence.cache_failed s.cache down) refl refl (cache.seen-next s.cache _)
            refl,
      )
      | inr up ↦ rw up (
          announced terminal value e
            (record s {
              cache =
                  b.cache.next s.cache
                    (with_value (wallet_scan row.user_id row.address) value (b.cache.seen s.cache));
            })
            refl refl (cache.seen-next s.cache _))
    ]

    if_cached :
        (c : Bool) (m : Handler b (Bool × Bool))
        → b.has_cache ≡ c
        → Projected m
        → Projected (if not c then pure (false, false) else m)
    if_cached true m e h = h
    if_cached false m e h =
        ((false, false), refl, Projects.silent (Silence.no_cache e) refl refl refl refl)

    project_terminal-Projected : is_terminal row.status ≡ true → Projected (project_terminal b row)
    unfolding project_terminal
    project_terminal-Projected terminal =
        if_cached b.has_cache _ refl
          (rw (saved_value row) (saves-Projected terminal (value_of b row) refl))

    if_terminal :
        (c : Bool)
        → is_terminal row.status ≡ c
        → Projected (if c then project_terminal b row else pure (false, false))
    if_terminal true e = project_terminal-Projected e
    if_terminal false e = (
      (false, false),
      refl,
      Projects.silent (Silence.not_terminal row refl e) refl refl refl refl,
    )

  project_row-Projects :
      (row : Option ScanResultEntity) (s : Session b)
      → (flags : Bool × Bool) × ((project_row b row s).0 ≡ ok flags)
        × Projects b row s (project_row b row s).1 flags
  project_row-Projects none s =
      ((false, false), refl, Projects.silent (Silence.no_row refl) refl refl refl refl)
  project_row-Projects (some row) s = if_terminal row s (is_terminal row.status) refl

  if_outcome :
      (c : Bool) (row : Option ScanResultEntity) (s : Session b)
      → let m = if c then project_row b row else pure (false, false) in
        (flags : Bool × Bool) × ((m s).0 ≡ ok flags)
        × Projects b (if c then row else none) s (m s).1 flags
  if_outcome true row s = project_row-Projects row s
  if_outcome false row s =
      ((false, false), refl, Projects.silent (Silence.no_row refl) refl refl refl refl)

  pub project_transition-Projects :
      (res : Result) (s : Session b)
      → let (r, s') = project_transition b res s in
        (flags : Bool × Bool) × (r ≡ ok flags) × Projects b (projected_row res) s s' flags
  unfolding project_transition
  project_transition-Projects res s = if_outcome _ res.row s
