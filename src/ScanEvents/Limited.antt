-- ===== src/ScanEvents/Limited.antt =====
-- The limit of a user for TLS scans, under the steps of the handlers on the database.
use cafe_persistence.Prelude.{
  ℕ, String, ◌≡◌, refl, sym, ◌∙◌, ap, Bool, true, false, not, ◌||◌, Option, none, some, ◌==◌,
  str_eq, ℤ, is_non_positive, pos_part, ok, Exec, pure, subst, ==_iff, inl, inr,
}
use cafe_persistence.Domain.{Uuid, kind_endpoint}
use cafe_persistence.Domain.Tls.{TlsScanResult, TlsScanResultEntity}
use cafe_persistence.Db.{Error, IsSerial, statement}
use cafe_persistence.Db.Meets.{answered, committed_or_same}
use cafe_persistence.Db.Preserves.{
  Preserves, pure-Preserves, bind-Preserves, if-Preserves, answer-Preserves, transaction-Preserves,
}
use cafe_persistence.Tables.{Tables, Statement, on_tls_scan_results}
use cafe_persistence.PlanLimit.{scan_limit, endpoint_limit, scan_limit-AllOrNothing}
use cafe_persistence.Storage.Tls
use cafe_persistence.ScanEvents.{View, Services}
use cafe_persistence.ScanEvents.Commit.{
  confirm_existing_usage_or_acquire, complete_under_limit, commit_tls_completion, has_no_quota,
  persist_tls_failure,
}
use cafe_persistence.ScanEvents.Limits
use cafe_persistence.ScanEvents.Limits.{WithinLimit}

module _ (s : Services) (serial : IsSerial s.db) (t : Tables) (user_id : Uuid)
    (limited : (endpoint_limit user_id t).1 ≡ false)
    (positive : is_non_positive (endpoint_limit user_id t).0 ≡ false) where
  abbrev pub limit : ℕ
  limit = pos_part (endpoint_limit user_id t).0

  abbrev pub Inv : Tables → Type 0
  Inv = WithinLimit t.users t.plans user_id limit

  abbrev pub Keeps : {A : Type 0} → Exec s.db.Conn Error A → Type 0
  Keeps m = Preserves s.db Inv m

  tls-Keeps :
      {A : Type 0} (f : Statement TlsScanResultEntity A)
      → Keeps (statement s.db (on_tls_scan_results f))
  tls-Keeps f = Limits.tls-Keeps s.db serial t.users t.plans user_id limit f

  done-Keeps : {A : Type 0} (a : A) → Keeps (pure a)
  done-Keeps a = pure-Preserves s.db Inv (ok a)

  create_tls-Keeps : (ent : TlsScanResultEntity) → Keeps (Tls.create_tls s.db ent)
  unfolding Tls.create_tls
  create_tls-Keeps ent = tls-Keeps (Tls.insert_tls ent)

  update_or_create-Keeps :
      (scan_id : Uuid) (set : ℕ → TlsScanResultEntity → TlsScanResultEntity)
      (ent : TlsScanResultEntity)
      → Keeps (Tls.update_or_create s.db scan_id set ent)
  unfolding Tls.update_or_create
  update_or_create-Keeps scan_id set ent =
      bind-Preserves s.db Inv _ (tls-Keeps (Tls.update_tls scan_id set))
        λ n. if-Preserves s.db Inv (n == 0) _ _ (create_tls-Keeps ent) (done-Keeps tt)

  pub get_status-Keeps : (scan_id : Uuid) → Keeps (Tls.get_status s.db scan_id)
  unfolding Tls.get_status
  get_status-Keeps scan_id =
      bind-Preserves s.db Inv _ (tls-Keeps (Tls.select_tls scan_id))
        λ row. pure-Preserves s.db Inv _

  replaced-Keeps : (scan_id : Uuid) → Keeps (Tls.default_already_replaced s.db scan_id)
  unfolding Tls.default_already_replaced
  replaced-Keeps scan_id =
      bind-Preserves s.db Inv _ (tls-Keeps (Tls.count_deleted scan_id))
        λ n. pure-Preserves s.db Inv _

  replace-Keeps :
      (scan_id : Uuid) (url : String) → Keeps (Tls.replace_previous_default s.db scan_id url)
  unfolding Tls.replace_previous_default
  replace-Keeps scan_id url = tls-Keeps (Tls.delete_previous scan_id url)

  start_row-Keeps :
      (scan_id : Uuid) (owner : Option Uuid) (url : String)
      → Keeps (Tls.start_row s.db scan_id owner url)
  unfolding Tls.start_row
  start_row-Keeps scan_id none url = bind-Preserves s.db Inv _ (replaced-Keeps scan_id) λ replaced.
      if-Preserves s.db Inv replaced _ _ (done-Keeps tt) (
        bind-Preserves s.db Inv _ (create_tls-Keeps (Tls.started s.db scan_id none url))
          λ u. replace-Keeps scan_id url)
  start_row-Keeps scan_id (some owner) url =
      create_tls-Keeps (Tls.started s.db scan_id (some owner) url)

  pub on_started-Keeps :
      (scan_id : Uuid) (owner : Option Uuid) (url : String)
      → Keeps (Tls.on_started s.db scan_id owner url)
  unfolding Tls.on_started
  on_started-Keeps scan_id owner url =
      bind-Preserves s.db Inv _ (get_status-Keeps scan_id) λ current.
        if-Preserves s.db Inv (str_eq current "") _ _ (start_row-Keeps scan_id owner url)
          (done-Keeps tt)

  on_failed-Keeps :
      (scan_id : Uuid) (owner : Option Uuid) (url message : String)
      → Keeps (Tls.on_failed_in_tx s.db scan_id owner url message)
  unfolding Tls.on_failed_in_tx
  on_failed-Keeps scan_id owner url message =
      update_or_create-Keeps scan_id (Tls.set_failed message)
        (Tls.failed_row s.db scan_id owner url message)

  pub persist_tls_failure-Keeps :
      (scan_id : Uuid) (owner : Option Uuid) (url message : String)
      → Keeps (persist_tls_failure s scan_id owner url message)
  unfolding persist_tls_failure
  persist_tls_failure-Keeps scan_id owner url message =
      if-Preserves s.db Inv (not s.has_db || not s.has_ledger) _ _
        (on_failed-Keeps scan_id owner url message)
        (transaction-Preserves s.db Inv _ _ _ serial (
          bind-Preserves s.db Inv _ (on_failed-Keeps scan_id owner url message)
            λ u. Limits.release-Keeps s.db serial t.users t.plans user_id limit scan_id))

  abbrev Limited : Uuid → ℤ → Bool → Type 0
  Limited = Limits.Limited s.db serial t.users t.plans user_id limit

  acquire-Keeps :
      (other scan_id : Uuid) (l : ℤ) (unlimited : Bool)
      → Limited other l unlimited
      → Keeps (confirm_existing_usage_or_acquire s other scan_id kind_endpoint l unlimited)
  unfolding confirm_existing_usage_or_acquire
  acquire-Keeps other scan_id l true known =
      bind-Preserves s.db Inv _
        (Limits.has_usage-Keeps s.db serial t.users t.plans user_id limit scan_id)
        λ reserved. if-Preserves s.db Inv reserved _ _ (pure-Preserves s.db Inv _) (
          bind-Preserves s.db Inv _
            (Limits.unlimited-Keeps s.db serial t.users t.plans user_id limit other scan_id l known)
            λ u. pure-Preserves s.db Inv _)
  acquire-Keeps other scan_id l false known =
      bind-Preserves s.db Inv _
        (Limits.has_usage-Keeps s.db serial t.users t.plans user_id limit scan_id)
        λ reserved. if-Preserves s.db Inv reserved _ _ (pure-Preserves s.db Inv _) (
          bind-Preserves s.db Inv _
            (Limits.under_limit-Keeps s.db serial t.users t.plans user_id limit other scan_id l
              known)
            λ acquired.
              if-Preserves s.db Inv acquired _ _ (pure-Preserves s.db Inv _)
                (Limits.has_usage-Keeps s.db serial t.users t.plans user_id limit scan_id))

  complete-Keeps :
      (msg : View) (entity : TlsScanResultEntity) (url : String) (l : ℤ) (unlimited : Bool)
      → Limited msg.user_id l unlimited
      → Keeps (complete_under_limit s msg entity url l unlimited)
  unfolding complete_under_limit Tls.on_completed_in_tx Tls.on_plan_limit_exceeded_in_tx
  complete-Keeps msg entity url l unlimited known =
      bind-Preserves s.db Inv _ (acquire-Keeps msg.user_id msg.scan_id l unlimited known)
        λ acquired.
          bind-Preserves s.db Inv _
            (if-Preserves s.db Inv acquired _ _ (update_or_create-Keeps msg.scan_id _ _)
              (update_or_create-Keeps msg.scan_id Tls.set_plan_limit_exceeded _))
            λ u. done-Keeps acquired

  nothing_to_blame : (c : s.db.Conn) → s.db.fails c ≡ true → Unit {0}
  nothing_to_blame c h = tt

  -- the limit of the user is that of the tables, as long as users and plans stay
  known_limit : (t' : Tables) → Inv t' → endpoint_limit user_id t' ≡ endpoint_limit user_id t
  known_limit t' h =
      λ i. endpoint_limit user_id (record t' { users = h.same_users i; plans = h.same_plans i })

  scan_limit-Keeps : (other : Uuid) → Keeps (scan_limit s.db other kind_endpoint)
  scan_limit-Keeps other = record {
    at = λ c h.
        elim (committed_or_same
          (λ a t'. (a ≡ endpoint_limit other (s.db.seen c)) × (t' ≡ s.db.seen c)) (Unit {0})
          (s.db.seen c) _ _
          (scan_limit-AllOrNothing s.db serial nothing_to_blame (s.db.seen c) other c refl)) [
            | inl read ↦ subst Inv (sym read.1.1) h
            | inr same ↦ subst Inv (sym same) h
          ];
  }

  scan_limit-Limited :
      (other : Uuid) (c : s.db.Conn) (a : ℤ × Bool)
      → Inv (s.db.seen c)
      → (scan_limit s.db other kind_endpoint c).0 ≡ ok a
      → Limited other a.0 a.1
  scan_limit-Limited other c a h e mine =
      let read =
        answered (λ a t'. (a ≡ endpoint_limit other (s.db.seen c)) × (t' ≡ s.db.seen c)) (Unit {0})
          (s.db.seen c) _ _ a e
          (scan_limit-AllOrNothing s.db serial nothing_to_blame (s.db.seen c) other c refl) in
      let same : a ≡ endpoint_limit user_id t =
        read.0
        ∙ ap (λ x. endpoint_limit x (s.db.seen c)) ((==_iff other user_id).0 mine)
        ∙ known_limit (s.db.seen c) h in
      subst
        (λ (x : ℤ × Bool). (x.1 ≡ false) × (is_non_positive x.0 ≡ false) × (pos_part x.0 ≡ limit))
        (sym same) (limited, positive, refl)

  pub commit-Keeps :
      (msg : View) (entity : TlsScanResultEntity) (result : TlsScanResult)
      → Keeps (commit_tls_completion s msg entity result)
  unfolding commit_tls_completion Tls.on_completed_in_tx
  commit-Keeps msg entity result =
      if-Preserves s.db Inv (has_no_quota s msg) _ _
        (bind-Preserves s.db Inv _ (update_or_create-Keeps msg.scan_id _ _) λ u. done-Keeps true)
        (answer-Preserves s.db Inv (λ a. Limited msg.user_id a.0 a.1) _
          (scan_limit-Keeps msg.user_id) (scan_limit-Limited msg.user_id)
          λ l known.
            transaction-Preserves s.db Inv _ _ _ serial (complete-Keeps msg entity _ l.0 l.1 known))
