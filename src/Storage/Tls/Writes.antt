-- ===== src/Storage/Tls/Writes.antt =====
-- What TLSWriter's update-or-insert leaves in the table while nobody else writes.
use cafe_persistence.Prelude.{
  ℕ, String, ◌≡◌, refl, ◌∙◌, ap, true, false, inl, inr, Option, none, some, List, [], ◌∷◌, ◌++◌,
  arith, sym, ◌==◌, ==-refl, Bool-cases, Option-cases,
}
use cafe_persistence.Domain.{Uuid}
use cafe_persistence.Domain.Tls.{TlsScanResultEntity}
use cafe_persistence.Scan.{success, failed, plan_limit_exceeded}
use cafe_persistence.Db.{Moment, Database, IsSerial}
use cafe_persistence.Db.Table.{
  first, update, exists, first-update_self, first-update_other, update-none, first-append_none,
  first-append_other, first-holds,
}
use cafe_persistence.Db.Meets.{Meets, Meets-pure, Meets-bind, Meets-statement}
use cafe_persistence.Tables.{Tables, tls_at, before_create}
use cafe_persistence.Storage.Tls.{
  blank_tls, insert_tls, update_tls, create_tls, update_or_create, on_completed_in_tx,
  on_plan_limit_exceeded_in_tx, on_failed_in_tx,
}

abbrev pub tls_row : Uuid → Tables → Option TlsScanResultEntity
tls_row scan_id t = first (tls_at scan_id) t.tls_scan_results

-- A row that a write leaves, by the time and the row that it finds.
abbrev pub Write : Type 0
Write = Moment → Option TlsScanResultEntity → TlsScanResultEntity

-- a completion: every column of the result, but the time of an earlier row
abbrev pub success_row : Uuid → TlsScanResultEntity → Write
success_row scan_id entity m none = record entity {
  id = before_create scan_id m;
  status = success;
  error = "";
  created_at = m.now;
  updated_at = m.now;
}
success_row scan_id entity m (some old) = record entity {
  id = scan_id;
  status = success;
  error = "";
  created_at = old.created_at;
  updated_at = m.now;
}

-- a completion over the limit: an earlier row keeps its owner and URL and loses its findings
abbrev pub limit_row : Uuid → Option Uuid → String → Write
limit_row scan_id user_id url m none = record blank_tls {
  id = before_create scan_id m;
  user_id = user_id;
  url = url;
  status = failed;
  error = plan_limit_exceeded;
  created_at = m.now;
  updated_at = m.now;
}
limit_row scan_id user_id url m (some old) = record old {
  status = failed;
  error = plan_limit_exceeded;
  host = "";
  port = 0;
  protocol_version = "";
  nist_level = 0;
  risk_score = 0;
  pqc_risk = "";
  certificate = "";
  cipher_suites = "";
  supported_pqcs = "";
  recommendations = "";
  nist_levels = "";
  updated_at = m.now;
}

-- a failure: an earlier row changes its status and message only
abbrev pub failure_row : Uuid → Option Uuid → String → String → Write
failure_row scan_id user_id url message m none = record blank_tls {
  id = before_create scan_id m;
  user_id = user_id;
  url = url;
  protocol_version = "unknown";
  nist_level = 1;
  pqc_risk = "unknown";
  status = failed;
  error = message;
  created_at = m.now;
  updated_at = m.now;
}
failure_row scan_id user_id url message m (some old) = record old {
  status = failed;
  error = message;
  updated_at = m.now;
}

-- The table `t'` has the row that is to be written; no other scan and no other table has changed.
pub record IsRecorded (scan_id : Uuid) (write : Write) (t t' : Tables) : Type 0 where
  pub moment : Moment
  pub row : TlsScanResultEntity
  pub row_is : row ≡ write moment (tls_row scan_id t)
  pub found : tls_row row.id t' ≡ some row
  pub others : (j : Uuid) → (j == row.id) ≡ false → tls_row j t' ≡ tls_row j t
  pub ledger : t'.scan_usage_events ≡ t.scan_usage_events
  pub wallets : t'.scan_results ≡ t.scan_results

module _ (scan_id : Uuid) where
  tls_at-id : (r : TlsScanResultEntity) → tls_at scan_id r ≡ true → r.id ≡ scan_id
  tls_at-id r h = ground arith

  tls_at-live : (r : TlsScanResultEntity) → tls_at scan_id r ≡ true → r.deleted_at ≡ none
  tls_at-live r h = ground arith

  at_own :
      (r : TlsScanResultEntity) → r.id ≡ scan_id → r.deleted_at ≡ none → tls_at scan_id r ≡ true
  at_own r e live = ground (arith, ==-refl scan_id)

  at_other :
      (j : Uuid) (r : TlsScanResultEntity)
      → (j == scan_id) ≡ false
      → r.id ≡ scan_id
      → tls_at j r ≡ false
  at_other j r ne e = ground arith

  free-missing :
      (rows : List TlsScanResultEntity)
      → exists (λ r. r.id == scan_id) rows ≡ false
      → first (tls_at scan_id) rows ≡ none
  unfolding exists first
  free-missing [] h = refl
  free-missing (r ∷ rs) h = ground (arith, free-missing rs)

-- How one write is done: by an UPDATE that sets `set`, or by an INSERT of `ent`.
record Writes (scan_id : Uuid) (write : Write) (set : ℕ → TlsScanResultEntity → TlsScanResultEntity)
    (ent : TlsScanResultEntity) : Type 0 where
  kept :
      (now : ℕ) (r : TlsScanResultEntity)
      → tls_at scan_id r ≡ true
      → ((set now r).id ≡ scan_id) × ((set now r).deleted_at ≡ none)
  set_is : (m : Moment) (r : TlsScanResultEntity) → set m.now r ≡ write m (some r)
  ent_id : ent.id ≡ scan_id
  ent_live : ent.deleted_at ≡ none
  ent_is :
      (m : Moment)
      → record ent { id = before_create scan_id m; created_at = m.now; updated_at = m.now }
        ≡ write m none

module _ (scan_id : Uuid) (write : Write) (set : ℕ → TlsScanResultEntity → TlsScanResultEntity)
    (ent : TlsScanResultEntity) (w : Writes scan_id write set ent) (t : Tables) where
  abbrev updated : Moment → Tables
  updated m = record t { tls_scan_results = update (tls_at scan_id) (set m.now) t.tls_scan_results }

  updated-IsRecorded :
      (m : Moment) (r : TlsScanResultEntity)
      → tls_row scan_id t ≡ some r
      → tls_at scan_id r ≡ true
      → IsRecorded scan_id write t (updated m)
  updated-IsRecorded m r found at =
      let own = (w.kept m.now r at).0 in
      record {
        moment = m;
        row = set m.now r;
        row_is = w.set_is m r ∙ ap (write m) (sym found);
        found =
            ap (λ i. tls_row i (updated m)) own
            ∙ (first-update_self (tls_at scan_id) (set m.now) t.tls_scan_results r
                (λ x h. at_own scan_id (set m.now x) (w.kept m.now x h).0 (w.kept m.now x h).1)
                found).0;
        others = λ j ne.
            let apart : (j == scan_id) ≡ false = ap (λ i. j == i) (sym own) ∙ ne in
            first-update_other (tls_at scan_id) (tls_at j) (set m.now) t.tls_scan_results (λ x h. (
              at_other scan_id j x apart (tls_at-id scan_id x h),
              at_other scan_id j (set m.now x) apart (w.kept m.now x h).0,
            ));
        ledger = refl;
        wallets = refl;
      }

  abbrev made : Moment → TlsScanResultEntity
  made m = record ent { id = before_create scan_id m; created_at = m.now; updated_at = m.now }

  inserted-IsRecorded :
      (m : Moment)
      → tls_row scan_id t ≡ none
      → exists (λ r. r.id == before_create scan_id m) t.tls_scan_results ≡ false
      → IsRecorded scan_id write t
          (record t { tls_scan_results = t.tls_scan_results ++ made m ∷ [] })
  inserted-IsRecorded m missing free =
      let id = before_create scan_id m in
      record {
        moment = m;
        row = made m;
        row_is = w.ent_is m ∙ ap (write m) (sym missing);
        found =
            first-append_none (tls_at id) t.tls_scan_results (made m)
              (free-missing id t.tls_scan_results free)
            ∙ rw (at_own id (made m) refl w.ent_live) refl;
        others = λ j ne.
            first-append_other (tls_at j) t.tls_scan_results (made m)
              (at_other id j (made m) ne refl);
        ledger = refl;
        wallets = refl;
      }

module _ (db : Database Tables) (serial : IsSerial db) {X : Type 0}
    (blame : (c : db.Conn) → db.fails c ≡ true → X) (t : Tables) (scan_id : Uuid)
    (taken : (m : Moment)
      → tls_row scan_id t ≡ none
      → exists (λ r. r.id == before_create scan_id m) t.tls_scan_results ≡ true
      → X) where
  create-Meets :
      (write : Write) (set : ℕ → TlsScanResultEntity → TlsScanResultEntity)
      (ent : TlsScanResultEntity)
      → Writes scan_id write set ent
      → tls_row scan_id t ≡ none
      → Meets db X t (create_tls db ent) (λ _ t'. IsRecorded scan_id write t t')
  unfolding create_tls insert_tls
  create-Meets write set ent w missing = Meets-statement db serial blame _ (λ m.
      elim (Bool-cases (exists (λ r. r.id == before_create scan_id m) t.tls_scan_results)) [
        | inl held ↦ rw (w.ent_id, held) (taken m missing held)
        | inr free ↦
            rw (w.ent_id, free) (inserted-IsRecorded scan_id write set ent w t m missing free)
      ])

  update_or_create-Meets :
      (write : Write) (set : ℕ → TlsScanResultEntity → TlsScanResultEntity)
      (ent : TlsScanResultEntity)
      → Writes scan_id write set ent
      → Meets db X t (update_or_create db scan_id set ent) (λ _ t'. IsRecorded scan_id write t t')
  unfolding update_or_create update_tls
  update_or_create-Meets write set ent w = elim (Option-cases (tls_row scan_id t)) [
    | inl missing ↦
        let old = update-none (tls_at scan_id) (set 0) t.tls_scan_results missing in
        Meets-bind db {P = λ n t'. (n ≡ 0) × (t' ≡ t)} _ _
          (Meets-statement db serial blame _ (λ m. (
            old.1,
            ap (λ rows. record t { tls_scan_results = rows })
                (update-none (tls_at scan_id) (set m.now) t.tls_scan_results missing).0,
          )))
          (λ n t' k. rw (k.0, k.1) (create-Meets write set ent w missing))
    | inr (r, found) ↦
        Meets-bind db {P = λ n t'. ((n == 0) ≡ false) × IsRecorded scan_id write t t'} _ _
          (Meets-statement db serial blame _ (λ m. (
            (first-update_self (tls_at scan_id) (set m.now) t.tls_scan_results r
                (λ x k. at_own scan_id (set m.now x) (w.kept m.now x k).0 (w.kept m.now x k).1)
                found).1,
            updated-IsRecorded scan_id write set ent w t m r found
                (first-holds (tls_at scan_id) t.tls_scan_results r found),
          )))
          (λ n t' k. rw k.0 (Meets-pure db tt k.1))
  ]

  pub on_completed-Meets :
      (entity : TlsScanResultEntity)
      → entity.deleted_at ≡ none
      → Meets db X t
          (on_completed_in_tx db scan_id entity)
          (λ _ t'. IsRecorded scan_id (success_row scan_id entity) t t')
  unfolding on_completed_in_tx
  on_completed-Meets entity live = update_or_create-Meets (success_row scan_id entity) _ _ (record {
    kept = λ now r k. (refl, live);
    set_is = λ m r. refl;
    ent_id = refl;
    ent_live = live;
    ent_is = λ m. refl;
  })

  pub on_plan_limit_exceeded-Meets :
      (user_id : Option Uuid) (url : String)
      → Meets db X t
          (on_plan_limit_exceeded_in_tx db scan_id user_id url)
          (λ _ t'. IsRecorded scan_id (limit_row scan_id user_id url) t t')
  unfolding on_plan_limit_exceeded_in_tx
  on_plan_limit_exceeded-Meets user_id url =
      update_or_create-Meets (limit_row scan_id user_id url) _ _ (record {
        kept = λ now r k. (tls_at-id scan_id r k, tls_at-live scan_id r k);
        set_is = λ m r. refl;
        ent_id = refl;
        ent_live = refl;
        ent_is = λ m. refl;
      })

  pub on_failed-Meets :
      (user_id : Option Uuid) (url message : String)
      → Meets db X t
          (on_failed_in_tx db scan_id user_id url message)
          (λ _ t'. IsRecorded scan_id (failure_row scan_id user_id url message) t t')
  unfolding on_failed_in_tx
  on_failed-Meets user_id url message =
      update_or_create-Meets (failure_row scan_id user_id url message) _ _ (record {
        kept = λ now r k. (tls_at-id scan_id r k, tls_at-live scan_id r k);
        set_is = λ m r. refl;
        ent_id = refl;
        ent_live = refl;
        ent_is = λ m. refl;
      })
