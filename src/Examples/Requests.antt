-- ===== src/Examples/Requests.antt =====
-- The theorems on transitionCommand at a concrete request.
use cafe_persistence.Prelude.{◌≡◌, refl, none, some, [], ◌∷◌}
use cafe_persistence.Scan.{running, success}
use cafe_persistence.WalletTransition.{Command, quota_keep}
use cafe_persistence.ScanApi.Transition.{
  TransitionBody, Request, transition_command, normalize_address, known_sources, quota_for_target,
}
use cafe_persistence.ScanApi.Text.{trim_space, to_lower}
use cafe_persistence.ScanApi.Accepted.{IsCommand, transition_command-IsCommand}
use cafe_persistence.Examples.{wallet_result}

abbrev request : Request
request = record { parse_uuid = λ s. some 7; lower = λ c. c; header_user = 7 }

abbrev body : TransitionBody
body = record {
  transition_id = " t2 ";
  user_id = "7";
  address = " 0xab";
  source_states = running ∷ [];
  target_state = success;
  quota_action = quota_keep;
  result = some wallet_result;
  error = none;
}

abbrev command : Command
command = record {
  transition_id = "t2";
  user_id = 7;
  address = "0xab";
  source_states = running ∷ [];
  target_state = success;
  quota_action = quota_keep;
  result = some wallet_result;
  error = "";
}

accepts : transition_command request body ≡ some command
unfolding transition_command normalize_address to_lower trim_space known_sources quota_for_target
accepts = refl

transition_command-IsCommand_example : IsCommand request command
transition_command-IsCommand_example = transition_command-IsCommand request body command accepts
