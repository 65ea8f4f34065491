-- ===== src/Process/Startup.antt =====
-- What the probes of a process say of its start.
use cafe_persistence.Prelude.{
  ℕ, zero, suc, ◌≡◌, refl, Bool, true, false, Option, none, some, List, [], ◌∷◌, ◌++◌,
  if◌then◌else◌, String, Try, ok, err, Bool-cases, inl, inr, continue, ◌>>=◌, Exec, ap, ◌∙◌,
}
use cafe_persistence.Process.{
  State, set_ready, is_ready, handle_ready, healthcheck, Stage, postgres_run, scan_schema,
  cp_schema, redis_connect, nats_connect, chain_config, pending_repository, subscription,
  nats_connected, Outside, Process, fresh, signal_ready, must, connect, open_api, follow_events,
  main,
}

-- the steps in their order
abbrev pub stages : List Stage
stages =
    postgres_run ∷ scan_schema ∷ cp_schema ∷ redis_connect ∷ nats_connect ∷ chain_config
    ∷ pending_repository ∷ subscription ∷ nats_connected ∷ []

abbrev pub first_failed : Outside → List Stage → Option Stage
first_failed outside [] = none
first_failed outside (s ∷ rest) = if outside.answers s then first_failed outside rest else some s

abbrev or_else : Option Stage → Option Stage → Option Stage
or_else none q = q
or_else (some stage) q = some stage

abbrev pub ended : Option Stage → Try Stage (Unit {0})
ended none = ok tt
ended (some stage) = err stage

abbrev pub is_none : Option Stage → Bool
is_none none = true
is_none (some stage) = false

signal_ready-health : (rounds : ℕ) (p : Process) → (signal_ready rounds p).health ≡ p.health
unfolding signal_ready
signal_ready-health zero p = refl
signal_ready-health (suc rounds) p = signal_ready-health rounds _

module _ (outside : Outside) where
  abbrev Step : Type 0
  Step = Exec Process Stage (Unit {0})

  -- From a process that is not ready, the steps end with the first stage that fails, and the
  -- process is ready exactly if there is none.
  record Ends (stages : List Stage) (m : Step) : Type 0 where
    at :
        (p : Process)
        → p.health.ready ≡ false
        → let (r, p') = m p in
          (r ≡ ended (first_failed outside stages))
          × (p'.health.ready ≡ is_none (first_failed outside stages))

  must-Ends :
      (stage : Stage) (rest : List Stage) (m : Step)
      → Ends rest m
      → Ends (stage ∷ rest) (must outside stage >>= λ u. m)
  unfolding must
  must-Ends stage rest m h = record {
    at = λ p idle. elim (Bool-cases (outside.answers stage)) [
      | inl fine ↦ rw fine (h.at p idle)
      | inr failed ↦ rw failed (refl, idle)
    ];
  }

  change-Ends :
      (f : Process → Process) (rest : List Stage) (m : Step)
      → ((p : Process) → (f p).health ≡ p.health)
      → Ends rest m
      → Ends rest (λ p. m (f p))
  change-Ends f rest m same h = record {
    at = λ p idle. h.at (f p) (ap (λ (x : State). x.ready) (same p) ∙ idle);
  }

  if_signal :
      (encoded : Bool) (rounds : ℕ) (p : Process)
      → (if encoded then signal_ready rounds p else p).health ≡ p.health
  if_signal true rounds p = signal_ready-health rounds p
  if_signal false rounds p = refl

  ready-Ends : Ends [] (λ p. (
    ok tt,
    (let p' = record p { health = set_ready true p.health } in
        if outside.signal_encoded then signal_ready 40 p' else p'),
  ))
  unfolding set_ready
  ready-Ends = record {
    at = λ p idle. (refl, ap (λ (x : State). x.ready) (if_signal outside.signal_encoded 40 _));
  }

  -- From a process that is not ready, the steps end with the first stage that fails, and leave it
  -- so.
  record Idles (stages : List Stage) (m : Step) : Type 0 where
    at :
        (p : Process)
        → p.health.ready ≡ false
        → let (r, p') = m p in (r ≡ ended (first_failed outside stages)) × (p'.health.ready ≡ false)

  done-Idles :
      (f : Process → Process)
      → ((p : Process) → (f p).health ≡ p.health)
      → Idles [] (λ p. (ok tt, f p))
  done-Idles f same = record { at = λ p idle. (refl, ap (λ (x : State). x.ready) (same p) ∙ idle) }

  last-Idles : (stage : Stage) → Idles (stage ∷ []) (must outside stage)
  unfolding must
  last-Idles stage = record {
    at = λ p idle. elim (Bool-cases (outside.answers stage)) [
      | inl fine ↦ rw fine (refl, idle)
      | inr failed ↦ rw failed (refl, idle)
    ];
  }

  must-Idles :
      (stage : Stage) (rest : List Stage) (m : Step)
      → Idles rest m
      → Idles (stage ∷ rest) (must outside stage >>= λ u. m)
  unfolding must
  must-Idles stage rest m h = record {
    at = λ p idle. elim (Bool-cases (outside.answers stage)) [
      | inl fine ↦ rw fine (h.at p idle)
      | inr failed ↦ rw failed (refl, idle)
    ];
  }

  first_failed-append :
      (xs ys : List Stage)
      → first_failed outside (xs ++ ys)
        ≡ or_else (first_failed outside xs) (first_failed outside ys)
  first_failed-append [] ys = refl
  first_failed-append (x ∷ xs) ys = elim (Bool-cases (outside.answers x)) [
    | inl fine ↦ rw fine (first_failed-append xs ys)
    | inr failed ↦ rw failed refl
  ]

  continue-ended :
      (q : Option Stage) (ys : List Stage) (r : Try Stage (Unit {0})) (p : Process) (n : Step)
      → r ≡ ended q
      → p.health.ready ≡ false
      → Ends ys n
      → let (r', p') = continue r (λ u. n) p in
        (r' ≡ ended (or_else q (first_failed outside ys)))
        × (p'.health.ready ≡ is_none (or_else q (first_failed outside ys)))
  continue-ended none ys r p n e idle h = rw e (h.at p idle)
  continue-ended (some stage) ys r p n e idle h = rw e (refl, idle)

  then-Ends :
      (xs ys : List Stage) (m n : Step) → Idles xs m → Ends ys n → Ends (xs ++ ys) (m >>= λ u. n)
  then-Ends xs ys m n h k = record {
    at = λ p idle.
        let (answer, rests) = h.at p idle in
        rw (first_failed-append xs ys)
          (continue-ended (first_failed outside xs) ys (m p).0 (m p).1 n answer rests k);
  }

  connect-Idles :
      Idles
        (postgres_run ∷ scan_schema ∷ cp_schema ∷ redis_connect ∷ nats_connect ∷ chain_config ∷ [])
        (connect outside)
  unfolding connect
  connect-Idles =
      let rest = must-Idles postgres_run _ _ (
        must-Idles scan_schema _ _ (
          must-Idles cp_schema _ _ (
            must-Idles redis_connect _ _
              (must-Idles nats_connect _ _ (last-Idles chain_config))))) in
      record { at = λ p idle. rest.at (record p { health_listens = true }) idle }

  open_api-Idles : Idles (pending_repository ∷ []) (open_api outside)
  unfolding open_api
  open_api-Idles =
      must-Idles pending_repository _ _
        (done-Idles (λ p. record p { internal_listens = true }) (λ p. refl))

  follow_events-Ends : Ends (subscription ∷ nats_connected ∷ []) (follow_events outside)
  unfolding follow_events
  follow_events-Ends = must-Ends subscription _ _ (
      change-Ends (λ p. record p { subscribed = true }) _ _ (λ p. refl)
        (must-Ends nats_connected _ _ ready-Ends))

  main-Ends : Ends stages (main outside)
  unfolding main
  main-Ends = then-Ends _ _ _ _ connect-Idles (then-Ends _ _ _ _ open_api-Idles follow_events-Ends)

  ready_probe :
      (now : String) (s : State) (b : Bool)
      → s.ready ≡ b
      → healthcheck (ok (handle_ready now s)) ≡ (if b then 0 else 1)
  unfolding healthcheck handle_ready is_ready
  ready_probe now s true e = rw e refl
  ready_probe now s false e = rw e refl

-- The start ends with the first of its steps that fails, in the order of main; the container's
-- health check on what the process has become passes exactly if there is none, and so not before
-- the two schemas are migrated and NATS is subscribed to.
pub main-first_failed :
    (outside : Outside) (now : String)
    → let (r, p) = main outside fresh in
      (r ≡ ended (first_failed outside stages))
      × (healthcheck (ok (handle_ready now p.health))
          ≡ (if is_none (first_failed outside stages) then 0 else 1))
main-first_failed outside now =
    let (answer, ready) = (main-Ends outside).at fresh refl in
    (answer, ready_probe outside now _ _ ready)
