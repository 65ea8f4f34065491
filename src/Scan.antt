-- ===== src/Scan.antt =====
-- pkg/scan: the lifecycle states of a scan, their transitions and the quota error.
pub mod Lifecycle
use cafe_persistence.Prelude.{String, Bool, true, false, ◌||◌, ◌&&◌, if◌then◌else◌, str_eq}

abbrev pub pending : String
pending = "PENDING"

abbrev pub running : String
running = "RUNNING"

abbrev pub success : String
success = "SUCCESS"

abbrev pub failed : String
failed = "FAILED"

abbrev pub timeout : String
timeout = "TIMEOUT"

abbrev pub unreachable : String
unreachable = "UNREACHABLE"

abbrev pub plan_limit_exceeded : String
plan_limit_exceeded = "PLAN_LIMIT_EXCEEDED"

abbrev pub logical_state : String → String
logical_state s = if str_eq s "" then pending else s

-- the `switch` of `ValidTransition`
allowed : String → String → Bool
allowed from_state to_state =
    if str_eq to_state running
    then str_eq from_state pending
    else (if str_eq to_state success
          || str_eq to_state failed
          || str_eq to_state timeout
          || str_eq to_state unreachable
        then str_eq from_state running || str_eq from_state pending
        else false)

unfoldable pub valid_transition : String → String → Bool
unfolding allowed
valid_transition from_state to_state = allowed (logical_state from_state) to_state

unfoldable pub is_terminal : String → Bool
is_terminal s = str_eq s success || str_eq s failed || str_eq s timeout || str_eq s unreachable

unfoldable pub is_success : String → Bool
is_success s = str_eq s success
