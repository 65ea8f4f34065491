-- ===== src/Examples/Transitions.antt =====
-- The theorems on the transition endpoint at concrete requests.
use cafe_persistence.Prelude.{
  String, refl, Option, none, some, List, [], ◌∷◌, if◌then◌else◌, str_eq, Try,
}
use cafe_persistence.Domain.{Uuid}
use cafe_persistence.Db.Scripted.{scripted-IsSerial, start, reliable, reliable-IsSerial}
use cafe_persistence.Tables.{Tables}
use cafe_persistence.Scan.{running, failed, is_terminal}
use cafe_persistence.WalletTransition.{Command, quota_release, same_transition}
use cafe_persistence.ScanApi.Text.{trim_space, to_lower}
use cafe_persistence.ScanApi.Transition.{
  TransitionBody, payload, known_sources, quota_for_target, normalize_address, transition_command,
}
use cafe_persistence.ScanApi.Http.{HttpRequest, BusMessage, Backend, Session, Cache, Response}
use cafe_persistence.ScanApi.TransitionRoute.{request_of, apply_wallet_transition}
use cafe_persistence.ScanApi.Transitions.{Commands, Serves, apply_wallet_transition-Serves}
use cafe_persistence.ScanApi.Answers.{IsAddressed}
use cafe_persistence.ScanApi.Resend.{Reprojected, apply_wallet_transition-resent}
use cafe_persistence.Examples.Wallet.{fail}
use cafe_persistence.Db.Table.{first}
use cafe_persistence.Examples.{tables, wallet_row}
use cafe_persistence.Examples.Reservations.{codec}
use cafe_persistence.Examples.Serving.{backend, session, request}

abbrev failure_body : TransitionBody
failure_body = record {
  transition_id = "t0";
  user_id = "seven";
  address = "0xab";
  source_states = running ∷ [];
  target_state = failed;
  quota_action = quota_release;
  result = none;
  error = some "no answer";
}

abbrev failing : HttpRequest
failing = record request { transition_body = some failure_body }

apply_wallet_transition-Serves_example :
    Serves backend failing session
      (apply_wallet_transition backend failing session).1
      (apply_wallet_transition backend failing session).0
apply_wallet_transition-Serves_example =
    apply_wallet_transition-Serves backend (scripted-IsSerial Tables) (scripted-IsSerial Cache)
      (scripted-IsSerial (List BusMessage)) failing session

abbrev names : String → Option Uuid
names s = if str_eq s "twelve" then some 12 else (if str_eq s "seven" then some 7 else none)

abbrev calm : Backend
calm = record backend {
  sql = reliable Tables;
  cache = reliable Cache;
  bus = reliable (List BusMessage);
  codec = record codec { parse_uuid = names };
}

abbrev rested : Session calm
rested = record {
  redis = start [] [];
  sql = start tables [];
  cache = start [] [];
  bus = start [] [];
}

abbrev again : HttpRequest
again = record failing { path_scan_id = "twelve" }

abbrev command_of : Option Command → Command
command_of (some cmd) = cmd
command_of none = fail

abbrev served : Try Response Response × Session calm
served = apply_wallet_transition calm again rested

commands : Commands calm again 12 (command_of (transition_command (request_of calm 7) failure_body))
unfolding trim_space transition_command payload known_sources quota_for_target to_lower
    normalize_address
commands = record {
  user_id = 7;
  body = failure_body;
  header = refl;
  path = refl;
  decoded = refl;
  command = refl;
}

addressed : IsAddressed calm again commands.user_id
unfolding commands trim_space
addressed = record { header = refl; path = refl; user = refl }

apply_wallet_transition-resent_example :
    Reprojected calm rested (wallet_row 12 failed (some "t0")) "" served.1 served.0
unfolding is_terminal same_transition first transition_command payload known_sources
    quota_for_target to_lower normalize_address trim_space
apply_wallet_transition-resent_example =
    apply_wallet_transition-resent calm again rested 12
      (command_of (transition_command (request_of calm 7) failure_body))
      (wallet_row 12 failed (some "t0")) "" commands addressed (reliable-IsSerial Tables)
      (reliable-IsSerial Cache) (reliable-IsSerial (List BusMessage)) (λ c. refl) (λ c. refl)
      (λ c. refl) refl refl refl refl refl refl refl
