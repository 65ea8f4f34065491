-- ===== src/Examples/Wallet.antt =====
-- The theorems on wallet transitions at concrete commands.
use cafe_persistence.Prelude.{
  String, ◌≡◌, refl, true, false, ◌⊎◌, none, some, List, [], ◌∷◌, ok, err, Try,
}
use cafe_persistence.Domain.{ScanResultEntity}
use cafe_persistence.Db.{Error, Database, IsSerial, statement, transaction}
use cafe_persistence.Db.Table.{first, count, exists, update}
use cafe_persistence.Db.Scripted.{Script, scripted, scripted-IsSerial, start}
use cafe_persistence.Tables.{Tables}
use cafe_persistence.Ledger.{
  has_credit, has_success_usage_for_scan_in_tx, release_success_usage_by_scan_id_in_tx,
}
use cafe_persistence.Scan.{pending, running, success, failed, is_terminal}
use cafe_persistence.WalletTransition.{
  Command, Result, applied, already_applied, retryable, quota_none, quota_keep, quota_release,
  source_scope, contains, logical, same_transition, stored_states,
}
use cafe_persistence.WalletTransition.Rows.{blank_row, new_row, select_scan, update_scan, overwrite}
use cafe_persistence.WalletTransition.Apply.{apply}
use cafe_persistence.WalletTransition.Spec.{Applies}
use cafe_persistence.WalletTransition.Guard.{source_scope-contains}
use cafe_persistence.WalletTransition.Transaction.{Fault, apply-refines}
use cafe_persistence.WalletTransition.Effects.{IsApplied}
use cafe_persistence.WalletTransition.Guarantees.{applied_writes, apply_again}
use cafe_persistence.WalletTransition.Liveness.{
  allowed_applies, soft_deleted_retries, release_takes_credit, terminal_reopened,
}
use cafe_persistence.Examples.{plain_codec, wallet_result, wallet_row, tables}

abbrev db : Database Tables
db = scripted Tables

abbrev serial : IsSerial db
serial = scripted-IsSerial Tables

abbrev conn : Script Tables
conn = start tables []

abbrev pub command : String → List String → String → String → Command
command id sources target quota = record {
  transition_id = id;
  user_id = 7;
  address = "0xab";
  source_states = sources;
  target_state = target;
  quota_action = quota;
  result = some wallet_result;
  error = "no answer";
}

abbrev succeed : Command
succeed = command "t2" (running ∷ []) success quota_keep

abbrev pub fail : Command
fail = command "t2" (running ∷ []) failed quota_release

abbrev begin : Command
begin = command "t3" (pending ∷ failed ∷ []) running quota_none

abbrev row_of : Try Error ScanResultEntity → ScanResultEntity
row_of (ok r) = r
row_of (err e) = blank_row

abbrev written : Command → ScanResultEntity
written cmd = row_of (new_row plain_codec 11 cmd)

abbrev run : Command → Result × Script Tables
run cmd = apply plain_codec db true 11 cmd conn

abbrev after : Command → Tables
after cmd = (run cmd).1.tables

-- The command is applied.
fail_applies : (run fail).0.outcome ≡ applied
unfolding apply transaction statement select_scan first new_row update_scan count source_scope
    stored_states release_success_usage_by_scan_id_in_tx update overwrite
fail_applies = refl

succeed_applies : (run succeed).0.outcome ≡ applied
unfolding apply transaction statement select_scan first has_success_usage_for_scan_in_tx count
    new_row update_scan source_scope stored_states update overwrite
succeed_applies = refl

apply-refines_example :
    Applies true 11 succeed (written succeed) tables (run succeed).0 (after succeed)
    ⊎ (Fault db 11 tables
        × ((run succeed).0.outcome ≡ retryable)
        × ((run succeed).0.row ≡ none)
        × (after succeed ≡ tables))
unfolding new_row
apply-refines_example =
    apply-refines plain_codec db true 11 succeed (written succeed) conn serial refl

applied_writes_example :
    IsApplied true 11 succeed (written succeed) tables (after succeed) (run succeed).0
unfolding new_row
applied_writes_example =
    applied_writes plain_codec db true 11 succeed (written succeed) serial refl conn succeed_applies

apply_again_example :
    let (r₂, c₃) = apply plain_codec db true 11 fail (start (after fail) (false ∷ true ∷ [])) in
    (c₃.tables ≡ after fail)
    × (((r₂.outcome ≡ already_applied) × (r₂.status ≡ (run fail).0.status))
        ⊎ ((r₂.outcome ≡ retryable) × ((b : db.Conn) × (db.fails b ≡ true))))
unfolding new_row
apply_again_example =
    apply_again plain_codec db true 11 fail (written fail) serial refl conn
      (start (after fail) (false ∷ true ∷ [])) fail_applies refl

allowed_applies_example :
    ((run succeed).0.outcome ≡ applied)
    ⊎ (((run succeed).0.outcome ≡ retryable) × Fault db 11 tables)
unfolding new_row contains logical same_transition first count
allowed_applies_example =
    allowed_applies plain_codec db true 11 succeed (written succeed) serial refl conn refl refl refl

release_takes_credit_example :
    (has_credit 11 (after fail) ≡ false) × (has_credit 21 (after fail) ≡ has_credit 21 tables)
unfolding new_row
release_takes_credit_example =
    release_takes_credit plain_codec db true 11 fail (written fail) serial refl conn 21 refl refl
      fail_applies

soft_deleted_retries_example :
    let (r, c') = apply plain_codec db true 13 begin conn in
    (r.outcome ≡ retryable) × (c'.tables ≡ tables)
unfolding new_row contains first exists
soft_deleted_retries_example =
    soft_deleted_retries plain_codec db true 13 begin (row_of (new_row plain_codec 13 begin)) serial
      refl conn refl refl refl refl

terminal_reopened_example :
    let (r, c') = apply plain_codec db true 12 begin conn in
    ((r.status ≡ running) × (r.outcome ≡ applied)) ⊎ ((b : db.Conn) × (db.fails b ≡ true))
unfolding new_row contains logical same_transition first is_terminal
terminal_reopened_example =
    terminal_reopened plain_codec db true 12 begin (row_of (new_row plain_codec 12 begin)) serial
      refl conn (wallet_row 12 failed (some "t0")) refl refl refl refl refl refl

source_scope-contains_example :
    source_scope (pending ∷ "" ∷ []) "" ≡ contains (pending ∷ "" ∷ []) (logical "")
source_scope-contains_example = source_scope-contains (pending ∷ "" ∷ []) ""
