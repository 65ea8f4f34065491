-- ===== src/WalletTransition/Spec.antt =====
-- What one wallet transition may do to the tables, said without statements and retries.
use cafe_persistence.Prelude.{
  String, ◌≡◌, Bool, true, false, not, ◌&&◌, ◌||◌, Option, none, some, [], ◌∷◌, ◌++◌, if◌then◌else◌,
  ◌==◌, str_eq,
}
use cafe_persistence.Domain.{Uuid, ScanResultEntity}
use cafe_persistence.Db.{Moment}
use cafe_persistence.Db.Table.{first, update, delete, exists}
use cafe_persistence.Tables.{Tables, wallet_at}
use cafe_persistence.Ledger.{of_scan, has_credit}
use cafe_persistence.Scan.{pending}
use cafe_persistence.WalletTransition.{
  Command, Result, outcome_of, quota_none, quota_keep, quota_release, applied, already_applied,
  retryable, rejected, logical, contains, same_transition, classify,
}
use cafe_persistence.WalletTransition.Rows.{in_scope, overwrite}
use cafe_persistence.WalletTransition.Apply.{reloaded}

abbrev pub row_at : Uuid → Tables → Option ScanResultEntity
row_at scan_id t = first (wallet_at scan_id) t.scan_results

-- May the quota action of the command be carried out?
abbrev pub is_covered : Bool → Uuid → Command → Tables → Bool
is_covered has_ledger scan_id cmd t =
    str_eq cmd.quota_action quota_none
    || (has_ledger && (not (str_eq cmd.quota_action quota_keep) || has_credit scan_id t))

-- `release` takes the credit of the scan away.
abbrev pub settled : Uuid → Command → Tables → Tables
settled scan_id cmd t =
    if str_eq cmd.quota_action quota_release
    then record t { scan_usage_events = delete (of_scan scan_id) t.scan_usage_events }
    else t

abbrev pub overwritten : Uuid → Command → ScanResultEntity → Moment → Tables → Tables
overwritten scan_id cmd new m t = record t {
  scan_results = update (in_scope scan_id cmd) (overwrite cmd new m.now) t.scan_results;
}

abbrev pub dated : ScanResultEntity → Moment → ScanResultEntity
dated new m = record new { created_at = m.now; updated_at = m.now }

abbrev pub inserted : ScanResultEntity → Moment → Tables → Tables
inserted new m t = record t { scan_results = t.scan_results ++ dated new m ∷ [] }

-- the logical state of the scan; a missing row is PENDING
abbrev pub state_of : Option ScanResultEntity → String
state_of none = pending
state_of (some ent) = logical ent.status

abbrev pub is_replay : Option ScanResultEntity → String → Bool
is_replay none id = false
is_replay (some ent) id = same_transition ent id

-- From the tables `t`, the command, which writes the row `new`, is answered by `r` and leaves `t'`.
pub data Applies (has_ledger : Bool) (scan_id : Uuid) (cmd : Command) (new : ScanResultEntity)
    (t : Tables) (r : Result) (t' : Tables) : Type 0 where
  replayed :
      (ent : ScanResultEntity)
      → row_at scan_id t ≡ some ent
      → same_transition ent cmd.transition_id ≡ true
      → r ≡ record {
        outcome = already_applied;
        status = logical ent.status;
        row = some (record ent { status = logical ent.status });
      }
      → t' ≡ t
      → Applies has_ledger scan_id cmd new t r t'
  refused :
      (ent : ScanResultEntity)
      → row_at scan_id t ≡ some ent
      → same_transition ent cmd.transition_id ≡ false
      → contains cmd.source_states (logical ent.status) ≡ false
      → r ≡ classify ent cmd
      → t' ≡ t
      → Applies has_ledger scan_id cmd new t r t'
  refused_missing :
      row_at scan_id t ≡ none
      → contains cmd.source_states pending ≡ false
      → r ≡ outcome_of rejected pending
      → t' ≡ t
      → Applies has_ledger scan_id cmd new t r t'
  uncovered :
      is_replay (row_at scan_id t) cmd.transition_id ≡ false
      → contains cmd.source_states (state_of (row_at scan_id t)) ≡ true
      → is_covered has_ledger scan_id cmd t ≡ false
      → r ≡ outcome_of retryable (state_of (row_at scan_id t))
      → t' ≡ t
      → Applies has_ledger scan_id cmd new t r t'
  updated :
      (ent : ScanResultEntity) (m : Moment)
      → row_at scan_id t ≡ some ent
      → same_transition ent cmd.transition_id ≡ false
      → contains cmd.source_states (logical ent.status) ≡ true
      → is_covered has_ledger scan_id cmd t ≡ true
      → r ≡ reloaded applied (overwrite cmd new m.now ent)
      → t' ≡ settled scan_id cmd (overwritten scan_id cmd new m t)
      → Applies has_ledger scan_id cmd new t r t'
  created :
      (m : Moment)
      → row_at scan_id t ≡ none
      → exists (λ r. r.id == scan_id) t.scan_results ≡ false
      → contains cmd.source_states pending ≡ true
      → is_covered has_ledger scan_id cmd t ≡ true
      → r ≡ reloaded applied (dated new m)
      → t' ≡ settled scan_id cmd (inserted new m t)
      → Applies has_ledger scan_id cmd new t r t'
