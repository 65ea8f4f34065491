-- ===== src/WalletTransition.antt =====
-- internal/wallettransition/apply.go: the command, its result, and the guards on a row. The steps
-- of the transaction are in `Apply`, the rows that they write in `Rows`.
pub mod Rows
pub mod Apply
pub mod Guard
pub mod Spec
pub mod Refines
pub mod Transaction
pub mod Effects
pub mod Reported
pub mod Guarantees
pub mod Liveness
use cafe_persistence.Prelude.{
  String, Bool, true, false, ◌&&◌, ◌||◌, Option, none, some, List, [], ◌∷◌, if◌then◌else◌, str_eq,
}
use cafe_persistence.Domain.{Uuid, ScanResult, ScanResultEntity}
use cafe_persistence.Scan.{pending, running, is_terminal}

abbrev pub quota_none : String
quota_none = "none"

abbrev pub quota_keep : String
quota_keep = "keep"

abbrev pub quota_release : String
quota_release = "release"

abbrev pub applied : String
applied = "applied"

abbrev pub already_applied : String
already_applied = "already_applied"

abbrev pub already_running : String
already_running = "already_running"

abbrev pub already_terminal : String
already_terminal = "already_terminal"

abbrev pub retryable : String
retryable = "retryable_error"

abbrev pub rejected : String
rejected = "rejected"

pub record Command : Type 0 where
  pub transition_id : String
  pub user_id : Uuid
  pub address : String
  pub source_states : List String
  pub target_state : String
  pub quota_action : String
  pub result : Option ScanResult
  pub error : String

pub record Result : Type 0 where
  pub outcome : String
  pub status : String
  pub row : Option ScanResultEntity

abbrev pub outcome_of : String → String → Result
outcome_of outcome status = record { outcome = outcome; status = status; row = none }

unfoldable pub logical : String → String
logical status = if str_eq status "" then pending else status

unfoldable pub contains : List String → String → Bool
contains [] want = false
contains (s ∷ states) want = str_eq s want || contains states want

abbrev is_id : Option String → String → Bool
is_id none id = false
is_id (some tid) id = str_eq tid id

unfoldable pub same_transition : ScanResultEntity → String → Bool
same_transition ent id = is_id ent.transition_id id

unfoldable pub classify : ScanResultEntity → Command → Result
unfolding logical is_terminal
classify ent cmd =
    let status = logical ent.status in
    if str_eq cmd.target_state running && str_eq status running
    then outcome_of already_running status
    else (if is_terminal status
        then outcome_of already_terminal status
        else outcome_of rejected status)

-- the sources that are kept in `stored`
unfoldable pub stored_states : List String → List String
stored_states [] = []
stored_states (s ∷ states) =
    let rest = stored_states states in if str_eq s "" then rest else s ∷ rest

abbrev pub is_nonempty : List String → Bool
is_nonempty [] = false
is_nonempty (s ∷ states) = true

-- the WHERE clause on the status; NULL reads as ""
unfoldable pub source_scope : List String → String → Bool
source_scope sources status =
    let stored = stored_states sources in
    if contains sources pending && is_nonempty stored
    then contains stored status || str_eq status ""
    else (if is_nonempty stored
        then contains stored status
        else (if contains sources pending
            then str_eq status "" || str_eq status pending
            else false))
