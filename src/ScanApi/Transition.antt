-- ===== src/ScanApi/Transition.antt =====
-- internal/scanapi/transition.go: the command that a decoded body stands for. uuid.Parse is a
-- parameter; `none` is its error.
use Prim.Native.Char.{Char}
use cafe_persistence.Prelude.{
  String, Bool, true, false, not, ◌&&◌, ◌||◌, Option, none, some, List, [], ◌∷◌, if◌then◌else◌,
  ◌==◌, str_eq, is_some,
}
use cafe_persistence.Domain.{Uuid, nil_uuid, ScanResult}
use cafe_persistence.Scan.{pending, running, success, failed, timeout, unreachable}
use cafe_persistence.WalletTransition.{Command, quota_none, quota_keep, quota_release}
use cafe_persistence.ScanApi.Text.{trim_space, to_lower}

-- transitionBody; an omitted field is `none`
pub record TransitionBody : Type 0 where
  pub transition_id : String
  pub user_id : String
  pub address : String
  pub source_states : List String
  pub target_state : String
  pub quota_action : String
  pub result : Option ScanResult
  pub error : Option String

unfoldable pub quota_for_target : String → Option String
quota_for_target target =
    if str_eq target running
    then some quota_none
    else (if str_eq target success
        then some quota_keep
        else (if str_eq target failed then some quota_release else none))

abbrev is_state : String → Bool
is_state s =
    str_eq s ""
    || str_eq s pending
    || str_eq s running
    || str_eq s success
    || str_eq s failed
    || str_eq s timeout
    || str_eq s unreachable

-- the loop of knownSources
abbrev all_states : List String → Bool
all_states [] = true
all_states (s ∷ states) = is_state s && all_states states

unfoldable pub known_sources : List String → Bool
known_sources [] = false
known_sources (s ∷ states) = all_states (s ∷ states)

-- the services that the request handler calls, and the request's own user
pub record Request : Type 0 where
  pub parse_uuid : String → Option Uuid
  pub lower : Char → Char
  pub header_user : Uuid

module _ (req : Request) where
  unfoldable pub normalize_address : String → String
  normalize_address addr = to_lower req.lower (trim_space addr)

  -- the `switch` on the target: the result and the error that the command carries
  abbrev pub success_payload :
      String → Option ScanResult → Option String → Option (Option ScanResult × String)
  success_payload address (some r) none =
      let result_addr = normalize_address r.address in
      if str_eq result_addr address
      then some (some (record r { address = result_addr }), "")
      else none
  success_payload address _ _ = none

  abbrev failure_payload : Option ScanResult → Option String → Option (Option ScanResult × String)
  failure_payload none (some e) =
      let error = trim_space e in if str_eq error "" then none else some (none, error)
  failure_payload _ _ = none

  unfoldable pub payload : TransitionBody → String → Option (Option ScanResult × String)
  payload body address =
      if str_eq body.target_state running
      then (if is_some body.result || is_some body.error then none else some (none, ""))
      else (if str_eq body.target_state success
          then success_payload address body.result body.error
          else failure_payload body.result body.error)

  abbrev pub command_of :
      TransitionBody → Uuid → String → Option (Option ScanResult × String) → Option Command
  command_of body user_id address none = none
  command_of body user_id address (some (result, error)) = some (record {
    transition_id = trim_space body.transition_id;
    user_id = user_id;
    address = address;
    source_states = body.source_states;
    target_state = body.target_state;
    quota_action = body.quota_action;
    result = result;
    error = error;
  })

  abbrev pub is_quota : Option String → String → Bool
  is_quota none action = false
  is_quota (some quota) action = str_eq action quota

  abbrev pub of_user : TransitionBody → Option Uuid → Option Command
  of_user body none = none
  of_user body (some user_id) =
      let address = normalize_address body.address in
      if user_id == nil_uuid || not (user_id == req.header_user)
      then none
      else (if str_eq address ""
            || str_eq (trim_space body.transition_id) ""
            || not (known_sources body.source_states)
          then none
          else (if not (is_quota (quota_for_target body.target_state) body.quota_action)
              then none
              else command_of body user_id address (payload body address)))

  -- `none` is a permanent rejection.
  unfoldable pub transition_command : TransitionBody → Option Command
  unfolding payload
  transition_command body = of_user body (req.parse_uuid (trim_space body.user_id))
