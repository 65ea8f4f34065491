-- ===== src/Process.antt =====
-- internal/health/server.go, cmd/healthcheck/main.go and cmd/persistence/main.go: the probes and
-- the order in which the process starts. What connects, migrates and subscribes is a parameter,
-- which says what each step answers; log.Fatal ends the process with the step that failed. The
-- listeners, the wiring of the handlers and viper are not modelled.
pub mod Startup
use cafe_persistence.Prelude.{
  ℕ, zero, suc, ◌+◌, ◌*◌, String, Bool, true, false, not, Option, none, some, List, [], ◌∷◌,
  if◌then◌else◌, ◌==◌, str_eq, Try, ok, err, Exec, pure, raise, ◌>>=◌, ◌>>◌,
}
use cafe_persistence.ScanApi.Text.{to_lower}
use Prim.Native.Char.{Char}
use cafe_persistence.Db.{Error}

-- health.State
pub record State : Type 0 where
  pub ready : Bool

unfoldable pub set_ready : Bool → State → State
set_ready ready s = record { ready = ready }

unfoldable pub is_ready : State → Bool
is_ready s = s.ready

-- the checks of /ready
pub record Checks : Type 0 where
  pub scan_migrations : Bool
  pub nats : Bool

-- an answer of a probe
pub record ProbeResponse : Type 0 where
  pub status_code : ℕ
  pub status : String
  pub app_name : String
  pub timestamp : String
  pub checks : Option Checks

abbrev probe : ℕ → String → String → Option Checks → ProbeResponse
probe status_code status now checks = record {
  status_code = status_code;
  status = status;
  app_name = "Cafe Persistence Service";
  timestamp = now;
  checks = checks;
}

unfoldable pub handle_health : String → ProbeResponse
handle_health now = probe 200 "ok" now none

abbrev both : Bool → Option Checks
both b = some (record { scan_migrations = b; nats = b })

unfoldable pub handle_ready : String → State → ProbeResponse
unfolding is_ready
handle_ready now s =
    if not (is_ready s)
    then probe 503 "not_ready" now (both false)
    else probe 200 "ok" now (both true)

-- the exit code of cmd/healthcheck, by what its GET on /ready answers
unfoldable pub healthcheck : Try Error ProbeResponse → ℕ
healthcheck (err e) = 1
healthcheck (ok resp) = if resp.status_code == 200 then 0 else 1

abbrev or_default : String → String → String
or_default value default_value = if str_eq value "" then default_value else value

-- the ports of main and of cmd/healthcheck, by what is configured
unfoldable pub health_port : String → String
health_port configured = or_default configured "8081"

unfoldable pub internal_port : String → String
internal_port configured = or_default configured "8082"

pub data Level : Type 0 where
  trace debug info warn error fatal panic : Level

-- the `switch` of initLogging
abbrev level_of : String → Level
level_of name =
    if str_eq name "trace"
    then trace
    else (if str_eq name "debug"
        then debug
        else (if str_eq name "warn"
            then warn
            else (if str_eq name "error"
                then error
                else (if str_eq name "fatal"
                    then fatal
                    else (if str_eq name "panic" then panic else info)))))

unfoldable pub log_level : (Char → Char) → String → Level
log_level lower configured = level_of (to_lower lower (or_default configured "info"))

-- The steps of main that may fail.
pub data Stage : Type 0 where
  postgres_run scan_schema cp_schema redis_connect nats_connect chain_config : Stage
  pending_repository subscription nats_connected : Stage

-- what the steps answer, and whether the ready signal is encoded
pub record Outside : Type 0 where
  pub answers : Stage → Bool
  pub signal_encoded : Bool

-- What the process has done: the state of the probes, the listeners that are started, and the
-- attempts to publish the ready signal, with the seconds that they took.
pub record Process : Type 0 where
  pub health : State
  pub health_listens : Bool
  pub internal_listens : Bool
  pub subscribed : Bool
  pub signals : ℕ
  pub seconds : ℕ

abbrev pub fresh : Process
fresh = record {
  health = record { ready = false };
  health_listens = false;
  internal_listens = false;
  subscribed = false;
  signals = 0;
  seconds = 0;
}

-- the loop that publishes the ready signal; an error of one publication is logged
unfoldable pub signal_ready : ℕ → Process → Process
signal_ready zero p = p
signal_ready (suc rounds) p =
    signal_ready rounds (record p { signals = p.signals + 1; seconds = p.seconds + 3 })

module _ (outside : Outside) where
  abbrev Step : Type 0
  Step = Exec Process Stage (Unit {0})

  unfoldable pub must : Stage → Step
  must stage = if outside.answers stage then pure tt else raise stage

  abbrev change : (Process → Process) → Step
  change f p = (ok tt, f p)

  -- Postgres, the schemas, Redis, NATS and the chains
  unfoldable pub connect : Step
  unfolding must
  connect = do
    change (λ p. record p { health_listens = true })
    must postgres_run
    must scan_schema
    must cp_schema
    must redis_connect
    must nats_connect
    must chain_config

  -- the internal HTTP API
  unfoldable pub open_api : Step
  unfolding must
  open_api = do must pending_repository; change (λ p. record p { internal_listens = true })

  -- the scan events and the ready signal, whose goroutine runs to its end
  unfoldable pub follow_events : Step
  unfolding must signal_ready
  follow_events = do
    must subscription
    change (λ p. record p { subscribed = true })
    must nats_connected
    change (λ p. record p { health = set_ready true p.health })
    change (λ p. if outside.signal_encoded then signal_ready 40 p else p)

  -- main, up to the wait for a signal
  unfoldable pub main : Step
  unfolding connect open_api follow_events
  main = do connect; open_api; follow_events

  -- the deferred calls, last one first
  unfoldable pub shutdown : Process → Process
  shutdown p = record p {
    health = set_ready false (set_ready false p.health);
    subscribed = false;
    internal_listens = false;
    health_listens = false;
  }
