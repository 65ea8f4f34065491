-- ===== src/WalletTransition/Refines/Steps.antt =====
-- What each step of the transaction of apply.go promises.
use cafe_persistence.Prelude.{
  String, ◌≡◌, refl, ◌∙◌, ap, Bool, true, false, not, Option, none, some, if◌then◌else◌, str_eq,
  str_eq_iff, Try, ok, arith,
}
use cafe_persistence.Domain.{Uuid, ScanResultEntity}
use cafe_persistence.Domain.Entity.{Codec}
use cafe_persistence.Db.{Error, Moment, Database, IsSerial, statement}
use cafe_persistence.Db.Table.{count}
use cafe_persistence.Db.Meets.{
  Meets, Meets-pure, Meets-raise, Meets-bind, Meets-on_err, Meets-if, Meets-statement,
}
use cafe_persistence.Tables.{Tables, on_scan_results}
use cafe_persistence.Ledger.{
  has_credit, has_success_usage_for_scan_in_tx, release_success_usage_by_scan_id_in_tx,
}
use cafe_persistence.WalletTransition.{
  Command, Result, outcome_of, quota_none, quota_keep, quota_release, retryable,
}
use cafe_persistence.WalletTransition.Rows.{in_scope, new_row, select_scan, update_scan}
use cafe_persistence.WalletTransition.Apply.{
  lift, found, kept, reloaded, find_scan, write_scoped, prepare_quota, finish_quota, reload,
}
use cafe_persistence.WalletTransition.Spec.{row_at, is_covered, settled, overwritten}

kept-Meets :
    (db : Database Tables) (X : Type 0) (Q : Unit {0} → Tables → Type 0) (b : Bool) (t : Tables)
    → b ≡ true
    → Q tt t
    → Meets db X t (kept b) Q
kept-Meets db X Q true t e h = Meets-pure db tt h
kept-Meets db X Q false t e h = cc

pub found-Meets :
    (db : Database Tables) (X : Type 0) (Q : ScanResultEntity → Tables → Type 0)
    (o : Option ScanResultEntity) (s : ScanResultEntity) (t : Tables)
    → o ≡ some s
    → Q s t
    → Meets db X t (found o) Q
found-Meets db X Q none s t e h = cc
found-Meets db X Q (some x) s t e h = let p : x ≡ s = cc in Meets-pure db x (rw p h)

pub found-fails :
    (db : Database Tables) (X : Type 0) (Q : ScanResultEntity → Tables → Type 0)
    (o : Option ScanResultEntity) (t : Tables)
    → o ≡ none
    → X
    → Meets db X t (found o) Q
found-fails db X Q none t e x = Meets-raise db _ x
found-fails db X Q (some s) t e x = cc

pub lift-Meets :
    (db : Database Tables) (X : Type 0) (new : ScanResultEntity) (r : Try Error ScanResultEntity)
    (t : Tables)
    → r ≡ ok new
    → Meets db X t (lift r) (λ s t'. (s ≡ new) × (t' ≡ t))
lift-Meets db X new r t e = rw e (Meets-pure db new (refl, refl))

release_excludes :
    (q : String)
    → str_eq q quota_release ≡ true
    → (str_eq q quota_none ≡ false) × (str_eq q quota_keep ≡ false)
release_excludes q h = rw ((str_eq_iff q quota_release).0 h) (refl, refl)

keep_excludes : (q : String) → str_eq q quota_keep ≡ true → str_eq q quota_none ≡ false
keep_excludes q h = rw ((str_eq_iff q quota_keep).0 h) refl

module _ (codec : Codec) (db : Database Tables) (serial : IsSerial db) (has_ledger : Bool)
    (scan_id : Uuid) {X : Type 0} (blame : (c : db.Conn) → db.fails c ≡ true → X) where
  pub find_scan-Meets :
      (t : Tables)
      → Meets db X t
          (find_scan codec db has_ledger scan_id)
          (λ o t'. (o ≡ row_at scan_id t) × (t' ≡ t))
  unfolding find_scan select_scan
  find_scan-Meets t = Meets-statement db serial blame _ (λ m. (refl, refl))

  pub has_success_usage-Meets :
      (t : Tables)
      → Meets db X t
          (has_success_usage_for_scan_in_tx db scan_id)
          (λ b t'. (b ≡ has_credit scan_id t) × (t' ≡ t))
  unfolding has_success_usage_for_scan_in_tx
  has_success_usage-Meets t = Meets-statement db serial blame _ (λ m. (refl, refl))

  abbrev pub prepared : Command → String → Tables → Result
  prepared cmd status t =
      if is_covered has_ledger scan_id cmd t then outcome_of "" "" else outcome_of retryable status

  pub prepare_quota-Meets :
      (t : Tables) (cmd : Command) (status : String)
      → Meets db X t
          (prepare_quota codec db has_ledger scan_id cmd status)
          (λ r t'. (r ≡ prepared cmd status t) × (t' ≡ t))
  unfolding prepare_quota
  prepare_quota-Meets t cmd status =
      Meets-if db (str_eq cmd.quota_action quota_none) _ _
        (λ none_. Meets-pure db _ (ground arith, refl))
        (λ some_.
          Meets-if db (not has_ledger) _ _ (λ without. Meets-pure db _ (ground arith, refl))
            (λ with.
              Meets-if db (str_eq cmd.quota_action quota_keep) _ _
                (λ keep.
                  Meets-bind db _ _ (Meets-on_err db _ _ (has_success_usage-Meets t))
                    (λ b t' h. Meets-pure db _ (ground arith, h.1)))
                (λ release. Meets-pure db _ (ground arith, refl))))

  -- With the quota action covered, the ledger is left settled.
  pub finish_quota-Meets :
      (t : Tables) (cmd : Command)
      → is_covered has_ledger scan_id cmd t ≡ true
      → Meets db X t
          (finish_quota codec db has_ledger scan_id cmd)
          (λ _ t'. t' ≡ settled scan_id cmd t)
  unfolding finish_quota release_success_usage_by_scan_id_in_tx
  finish_quota-Meets t cmd covered =
      Meets-if db (str_eq cmd.quota_action quota_release) _ _
        (λ release.
          Meets-if db has_ledger _ _ (λ with. Meets-statement db serial blame _ (λ m. rw release))
            (λ without. ground (arith, release_excludes cmd.quota_action release)))
        (λ other.
          Meets-if db (str_eq cmd.quota_action quota_keep) _ _
            (λ keep. Meets-bind db _ _ (has_success_usage-Meets t) (λ b t' h.
              kept-Meets db X _ b t' (h.0 ∙ ground (arith, keep_excludes cmd.quota_action keep))
                (rw other h.1)))
            (λ none_. Meets-pure db _ (ground arith)))

  pub reload-Meets :
      (t : Tables) (outcome : String) (stored : ScanResultEntity)
      → row_at scan_id t ≡ some stored
      → Meets db X t
          (reload codec db has_ledger scan_id outcome)
          (λ r t'. (r ≡ reloaded outcome stored) × (t' ≡ t))
  unfolding reload
  reload-Meets t outcome stored e =
      Meets-bind db _ _
        (Meets-on_err db _ _ (
          Meets-bind db _ _ (find_scan-Meets t) (λ o t' h.
            found-Meets db X (λ s t''. (s ≡ stored) × (t'' ≡ t)) o stored t' (h.0 ∙ e)
              (refl, h.1))))
        (λ row t' h. Meets-pure db _ (ap (reloaded outcome) h.0, h.1))

  pub write_scoped-Meets :
      (t : Tables) (cmd : Command) (new : ScanResultEntity)
      → new_row codec scan_id cmd ≡ ok new
      → Meets db X t (write_scoped codec db has_ledger scan_id cmd) (λ n t'.
        (m : Moment) × (n ≡ count (in_scope scan_id cmd) t.scan_results)
        × (t' ≡ overwritten scan_id cmd new m t))
  unfolding write_scoped update_scan
  write_scoped-Meets t cmd new e =
      Meets-bind db (lift (new_row codec scan_id cmd))
        (λ ent. statement db (on_scan_results (update_scan scan_id cmd ent)))
        (lift-Meets db X new (new_row codec scan_id cmd) t e)
        (λ r t' h. rw (h.0, h.1) (Meets-statement db serial blame _ (λ m. (m, refl, refl))))
