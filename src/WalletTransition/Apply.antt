-- ===== src/WalletTransition/Apply.antt =====
-- internal/wallettransition/apply.go: Apply and the steps of its transaction. Go returns a Result
-- beside an error; here the error of a step carries that Result.
use cafe_persistence.Prelude.{
  ℕ, String, Bool, true, false, not, ◌||◌, Option, none, some, if◌then◌else◌, ◌==◌, str_eq, Try, ok,
  err, Exec, pure, raise, on_err, ◌>>=◌, ◌>>◌,
}
use cafe_persistence.Domain.{Uuid, ScanResultEntity}
use cafe_persistence.Domain.Entity.{Codec}
use cafe_persistence.Db.{
  Error, record_not_found, keep_ledger_missing, unavailable, Database, statement, transaction,
}
use cafe_persistence.Tables.{Tables, on_scan_results}
use cafe_persistence.Ledger.{
  has_success_usage_for_scan_in_tx, release_success_usage_by_scan_id_in_tx,
}
use cafe_persistence.Scan.{pending}
use cafe_persistence.WalletTransition.{
  Command, Result, outcome_of, quota_none, quota_keep, quota_release, applied, already_applied,
  retryable, rejected, logical, contains, same_transition, classify,
}
use cafe_persistence.WalletTransition.Rows.{new_row, insert_scan, select_scan, update_scan}

-- `return Result{Status: status}, err`
abbrev pub with_status : String → Error → Result × Error
with_status status e = (outcome_of "" status, e)

abbrev pub keep_stop : String → Bool → Result
keep_stop status true = outcome_of "" ""
keep_stop status false = outcome_of retryable status

abbrev pub reloaded : String → ScanResultEntity → Result
reloaded outcome stored =
    let status = logical stored.status in
    record { outcome = outcome; status = status; row = some (record stored { status = status }) }

abbrev pub lift : {S A : Type 0} → Try Error A → Exec S Error A
lift r c = (r, c)

-- `_ = tx.….First(&again).Error`: on an error the row is what it was
abbrev or_again : ScanResultEntity → Try Error (Option ScanResultEntity) → ScanResultEntity
or_again again (ok (some ent)) = ent
or_again again _ = again

-- An error, of the body or of the commit, is retryable with the status reached so far.
abbrev pub settle : Try (Result × Error) Result → Result
settle (ok out) = out
settle (err (out, e)) = outcome_of retryable out.status

abbrev pub found : {S : Type 0} → Option ScanResultEntity → Exec S Error ScanResultEntity
found none = raise record_not_found
found (some ent) = pure ent

abbrev pub kept : {S : Type 0} → Bool → Exec S Error Unit
kept true = pure tt
kept false = raise keep_ledger_missing

module _ (codec : Codec) (db : Database Tables) (has_ledger : Bool) where
  abbrev Step : Type 0 → Type 0
  Step A = Exec db.Conn (Result × Error) A

  -- tx.Where("id = ?", scanID).First(…)
  unfoldable pub find_scan : Uuid → Exec db.Conn Error (Option ScanResultEntity)
  find_scan scan_id = statement db (on_scan_results (select_scan scan_id))

  unfoldable pub write_scoped : Uuid → Command → Exec db.Conn Error ℕ
  write_scoped scan_id cmd = do
    ent ← lift (new_row codec scan_id cmd)
    statement db (on_scan_results (update_scan scan_id cmd ent))

  -- A result with an outcome stops the transition.
  unfoldable pub prepare_quota : Uuid → Command → String → Step Result
  prepare_quota scan_id cmd status =
      if str_eq cmd.quota_action quota_none
      then pure (outcome_of "" "")
      else (if not has_ledger
          then pure (outcome_of retryable status)
          else (if str_eq cmd.quota_action quota_keep
              then (do
                has ← on_err (with_status status) (has_success_usage_for_scan_in_tx db scan_id)
                pure (keep_stop status has))
              else pure (outcome_of "" "")))

  unfoldable pub finish_quota : Uuid → Command → Exec db.Conn Error Unit
  finish_quota scan_id cmd =
      if str_eq cmd.quota_action quota_release
      then (if has_ledger
          then release_success_usage_by_scan_id_in_tx db scan_id
          else raise keep_ledger_missing)
      else (if str_eq cmd.quota_action quota_keep
          then (do has ← has_success_usage_for_scan_in_tx db scan_id; kept has)
          else pure tt)

  unfoldable pub reload : Uuid → String → Step Result
  unfolding find_scan logical
  reload scan_id outcome = do
    stored ← on_err (with_status "") (find_scan scan_id >>= found)
    pure (reloaded outcome stored)

  -- the end of both ways to write
  unfoldable pub complete : Uuid → Command → String → Step Result
  unfolding finish_quota reload
  complete scan_id cmd status = do
    on_err (with_status status) (finish_quota scan_id cmd)
    reload scan_id applied

  abbrev reread : Uuid → ScanResultEntity → Step ScanResultEntity
  reread scan_id again c = let (r, c') = find_scan scan_id c in (ok (or_again again r), c')

  unfoldable pub second_write : Uuid → Command → String → ScanResultEntity → Step Result
  unfolding write_scoped complete find_scan logical
  second_write scan_id cmd status again = do
    n ← on_err (with_status (logical again.status)) (write_scoped scan_id cmd)
    if n == 0
        then (do last ← reread scan_id again; pure (classify last cmd))
        else complete scan_id cmd status

  -- after a write that affected no row
  unfoldable pub write_again : Uuid → Command → String → Step Result
  unfolding second_write find_scan classify
  write_again scan_id cmd status = do
    again ← on_err (with_status status) (find_scan scan_id >>= found)
    if same_transition again cmd.transition_id
          || not (contains cmd.source_states (logical again.status))
        then pure (classify again cmd)
        else second_write scan_id cmd status again

  unfoldable pub write_existing : Uuid → Command → String → Step Result
  unfolding write_again write_scoped complete
  write_existing scan_id cmd status = do
    n ← on_err (with_status status) (write_scoped scan_id cmd)
    if n == 0 then write_again scan_id cmd status else complete scan_id cmd status

  -- `stop.Outcome != ""`
  abbrev unless_stopped : Result → Step Result → Step Result
  unless_stopped stop rest = if str_eq stop.outcome "" then rest else pure stop

  unfoldable pub apply_existing : Uuid → Command → ScanResultEntity → Step Result
  unfolding write_existing prepare_quota classify same_transition contains logical
  apply_existing scan_id cmd ent =
      let status = logical ent.status in
      if same_transition ent cmd.transition_id
      then pure (record {
        outcome = already_applied;
        status = status;
        row = some (record ent { status = status });
      })
      else (if not (contains cmd.source_states status) then pure (classify ent cmd) else (do
        stop ← prepare_quota scan_id cmd status
        unless_stopped stop (write_existing scan_id cmd status)))

  unfoldable pub create_missing : Uuid → Command → Step Result
  unfolding apply_existing find_scan complete
  create_missing scan_id cmd = do
    ent ← on_err (with_status pending) (lift (new_row codec scan_id cmd))
    n ← on_err (with_status pending) (statement db (on_scan_results (insert_scan ent)))
    if n == 0
        then (do
          winner ← on_err (with_status pending) (find_scan scan_id >>= found)
          apply_existing scan_id cmd winner)
        else complete scan_id cmd pending

  unfoldable pub apply_missing : Uuid → Command → Step Result
  unfolding create_missing prepare_quota contains
  apply_missing scan_id cmd =
      if not (contains cmd.source_states pending) then pure (outcome_of rejected pending) else (do
        stop ← prepare_quota scan_id cmd pending
        unless_stopped stop (create_missing scan_id cmd))

  abbrev dispatch : Uuid → Command → Option ScanResultEntity → Step Result
  dispatch scan_id cmd none = apply_missing scan_id cmd
  dispatch scan_id cmd (some ent) = apply_existing scan_id cmd ent

  unfoldable pub apply_tx : Uuid → Command → Step Result
  unfolding apply_existing apply_missing find_scan
  apply_tx scan_id cmd = do
    row ← on_err (with_status "") (find_scan scan_id)
    dispatch scan_id cmd row

  unfoldable pub apply : Uuid → Command → db.Conn → Result × db.Conn
  unfolding apply_tx
  apply scan_id cmd c =
      let (r, c') =
        transaction db (outcome_of "" "", unavailable) (λ out. (out, unavailable))
          (apply_tx scan_id cmd) c in
      (settle r, c')
