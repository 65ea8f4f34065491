-- ===== src/WalletTransition/Refines.antt =====
-- The transaction of apply.go against `Spec`.
pub mod Steps
pub mod Written
use cafe_persistence.Prelude.{
  ℕ, String, ◌≡◌, refl, ◌∙◌, ap, ◌+◌, subst, Bool, true, false, not, ◌⊎◌, inl, inr, Option, none,
  some, ◌==◌, str_eq, Try, ok, arith, Bool-cases, Option-cases, on_err, Exec, pure, ◌>>=◌,
  if◌then◌else◌,
}
use cafe_persistence.Domain.{Uuid, nil_uuid, ScanResultEntity}
use cafe_persistence.Domain.Entity.{Codec}
use cafe_persistence.Db.{Error, Moment, Database, IsSerial, statement}
use cafe_persistence.Db.Table.{exists, first-append_none}
use cafe_persistence.Db.Meets.{
  Meets, Meets-pure, Meets-bind, Meets-on_err, Meets-if, Meets-weaken, Meets-statement,
}
use cafe_persistence.Tables.{Tables, wallet_at, before_create, on_scan_results}
use cafe_persistence.Scan.{pending}
use cafe_persistence.WalletTransition.{
  Command, Result, outcome_of, applied, retryable, logical, contains, same_transition,
}
use cafe_persistence.WalletTransition.Rows.{in_scope, overwrite, new_row, insert_scan}
use cafe_persistence.WalletTransition.Apply.{
  with_status, reloaded, found, lift, find_scan, finish_quota, reload, complete, write_scoped,
  write_again, write_existing, prepare_quota, apply_existing, create_missing, apply_missing,
  apply_tx,
}
use cafe_persistence.WalletTransition.Spec.{
  row_at, is_covered, settled, overwritten, dated, inserted, state_of, is_replay, Applies,
}
use Steps.{
  find_scan-Meets, finish_quota-Meets, reload-Meets, write_scoped-Meets, prepare_quota-Meets,
  prepared, found-Meets, found-fails, lift-Meets,
}
use Written.{
  IsWritten, new_row-IsWritten, row_at-overwritten, in_scope-count, row_at-inserted, row_at-settled,
}

module _ (codec : Codec) (db : Database Tables) (serial : IsSerial db) (has_ledger : Bool)
    (scan_id : Uuid) (cmd : Command) (new : ScanResultEntity)
    (writable : new_row codec scan_id cmd ≡ ok new) {X : Type 0}
    (blame : (c : db.Conn) → db.fails c ≡ true → X) where
  written : IsWritten scan_id cmd new
  written = new_row-IsWritten codec scan_id cmd new writable

  complete-Meets :
      (t : Tables) (status : String) (s : ScanResultEntity)
      → row_at scan_id t ≡ some s
      → is_covered has_ledger scan_id cmd t ≡ true
      → Meets db X t
          (complete codec db has_ledger scan_id cmd status)
          (λ r t'. (r ≡ reloaded applied s) × (t' ≡ settled scan_id cmd t))
  unfolding complete
  complete-Meets t status s found_ covered =
      Meets-bind db _ _
        (Meets-on_err db _ _
          (finish_quota-Meets codec db serial has_ledger scan_id blame t cmd covered))
        (λ _ t' h. rw h (
          reload-Meets codec db serial has_ledger scan_id blame (settled scan_id cmd t) applied s
            (row_at-settled scan_id cmd t ∙ found_)))

  write_existing-Meets :
      (t : Tables) (status : String) (ent : ScanResultEntity)
      → row_at scan_id t ≡ some ent
      → contains cmd.source_states (logical ent.status) ≡ true
      → is_covered has_ledger scan_id cmd t ≡ true
      → Meets db X t (write_existing codec db has_ledger scan_id cmd status) (λ r t'.
        (m : Moment) × (r ≡ reloaded applied (overwrite cmd new m.now ent))
        × (t' ≡ settled scan_id cmd (overwritten scan_id cmd new m t)))
  unfolding write_existing
  write_existing-Meets t status ent found_ allowed covered =
      Meets-bind db _ _
        (Meets-on_err db _ _
          (write_scoped-Meets codec db serial has_ledger scan_id blame t cmd new writable))
        (λ n t' h.
          Meets-if db (n == 0) _ _
            (λ zero_. cc (in_scope-count scan_id cmd new written t ent found_ allowed, h.1))
            (λ one. rw h.2 (
              Meets-weaken db _ (λ r t'' k. (h.0, k.0, k.1))
                (complete-Meets (overwritten scan_id cmd new h.0 t) status
                  (overwrite cmd new h.0.now ent)
                  (row_at-overwritten scan_id cmd new written t ent h.0 found_ allowed) covered))))

  -- The quota is prepared, and the rest is run only if it is covered.
  covered-Meets :
      (t : Tables) (row : Option ScanResultEntity) (status : String)
      (rest : Exec db.Conn (Result × Error) Result)
      → row_at scan_id t ≡ row
      → is_replay row cmd.transition_id ≡ false
      → contains cmd.source_states (state_of row) ≡ true
      → status ≡ state_of row
      → (is_covered has_ledger scan_id cmd t ≡ true
          → Meets db X t rest (Applies has_ledger scan_id cmd new t))
      → Meets db X t
          (prepare_quota codec db has_ledger scan_id cmd status >>= λ stop.
            if str_eq stop.outcome "" then rest else pure stop)
          (Applies has_ledger scan_id cmd new t)
  covered-Meets t row status rest at_row fresh allowed same k =
      Meets-bind db _ _ (prepare_quota-Meets codec db serial has_ledger scan_id blame t cmd status)
        (λ stop t' h. elim (Bool-cases (is_covered has_ledger scan_id cmd t)) [
          | inl covered ↦
              let e : stop ≡ outcome_of "" "" = h.0 ∙ rw covered refl in rw (e, h.1) (k covered)
          | inr bare ↦
              let e : stop ≡ outcome_of retryable status = h.0 ∙ rw bare refl in
              rw (e, h.1)
                (Meets-pure db _ (
                  Applies.uncovered (rw at_row fresh) (rw at_row allowed) bare (rw (at_row, same))
                    refl))
        ])

  apply_existing-Meets :
      (t : Tables) (ent : ScanResultEntity)
      → row_at scan_id t ≡ some ent
      → Meets db X t
          (apply_existing codec db has_ledger scan_id cmd ent)
          (Applies has_ledger scan_id cmd new t)
  unfolding apply_existing
  apply_existing-Meets t ent found_ =
      Meets-if db (same_transition ent cmd.transition_id) _ _
        (λ same. Meets-pure db _ (Applies.replayed ent found_ same refl refl))
        (λ fresh.
          Meets-if db (not (contains cmd.source_states (logical ent.status))) _ _
            (λ out. Meets-pure db _ (Applies.refused ent found_ fresh (ground arith) refl refl))
            (λ inside.
              covered-Meets t (some ent) (logical ent.status) _ found_ fresh (ground arith) refl
                (λ covered.
                  let allowed : contains cmd.source_states (logical ent.status) ≡ true =
                    ground arith in
                  Meets-weaken db _
                    (λ r t' h. Applies.updated ent h.0 found_ fresh allowed covered h.1 h.2)
                    (write_existing-Meets t (logical ent.status) ent found_ allowed covered))))

  insert_scan-Meets :
      (t : Tables)
      → (scan_id == nil_uuid) ≡ false
      → Meets db X t (statement db (on_scan_results (insert_scan new))) (λ n t'.
        ((n ≡ 0) × (exists (λ r. r.id == new.id) t.scan_results ≡ true) × (t' ≡ t))
        ⊎ ((m : Moment) × (n ≡ 1)
            × (exists (λ r. r.id == new.id) t.scan_results ≡ false)
            × (t' ≡ inserted new m t)))
  unfolding insert_scan before_create
  insert_scan-Meets t given =
      let given' : (new.id == nil_uuid) ≡ false = ap (λ i. i == nil_uuid) written.id ∙ given in
      Meets-statement db serial blame _ (λ m.
        elim (Bool-cases (exists (λ r. r.id == new.id) t.scan_results)) [
          | inl taken ↦ rw (given', taken) (inl (refl, refl, refl))
          | inr free ↦ rw (given', free) (inr (m, refl, refl, refl))
        ])

  generated_apart :
      (m : Moment) (r : ScanResultEntity)
      → (scan_id == nil_uuid) ≡ true
      → r.id ≡ m.fresh + 1
      → wallet_at scan_id r ≡ false
  generated_apart m r nil e = ground (arith, nil, e)

  -- A row without id gets another one than the scan's.
  insert_nil-Meets :
      (t : Tables)
      → (scan_id == nil_uuid) ≡ true
      → row_at scan_id t ≡ none
      → is_covered has_ledger scan_id cmd t ≡ true
      → Meets db X t
          (statement db (on_scan_results (insert_scan new)))
          (λ n t'. (row_at scan_id t' ≡ none) × (is_covered has_ledger scan_id cmd t' ≡ true))
  unfolding insert_scan before_create
  insert_nil-Meets t nil missing covered =
      let nil' : (new.id == nil_uuid) ≡ true = ap (λ i. i == nil_uuid) written.id ∙ nil in
      Meets-statement db serial blame _ (λ m.
        elim (Bool-cases (exists (λ r. r.id == m.fresh + 1) t.scan_results)) [
          | inl taken ↦ rw (nil', taken) (missing, covered)
          | inr free ↦
              let row : ScanResultEntity = record new {
                id = m.fresh + 1;
                created_at = m.now;
                updated_at = m.now;
              } in
              rw (nil', free)
                (
                  first-append_none (wallet_at scan_id) t.scan_results row missing
                      ∙ rw (generated_apart m row nil refl) refl,
                  covered,
                )
        ])

  -- A row that is not found stops the transition.
  lost_find :
      {B : Type 0} {Q : B → Tables → Type 0} (g : Error → Result × Error)
      (next : ScanResultEntity → Exec db.Conn (Result × Error) B) (t : Tables)
      → row_at scan_id t ≡ none
      → X
      → Meets db X t (on_err g (find_scan codec db has_ledger scan_id >>= found) >>= next) Q
  lost_find g next t missing x =
      Meets-bind db {P = λ _ _. ⊥} _ _
        (Meets-on_err db _ _ (
          Meets-bind db _ _ (find_scan-Meets codec db serial has_ledger scan_id blame t)
            (λ o t' h. found-fails db X _ o t' (h.0 ∙ missing) x)))
        (λ _ _ impossible. absurd impossible)

  lost_complete :
      {Q : Result → Tables → Type 0} (t : Tables)
      → row_at scan_id t ≡ none
      → is_covered has_ledger scan_id cmd t ≡ true
      → X
      → Meets db X t (complete codec db has_ledger scan_id cmd pending) Q
  unfolding complete reload
  lost_complete t missing covered x =
      Meets-bind db _ _
        (Meets-on_err db _ _
          (finish_quota-Meets codec db serial has_ledger scan_id blame t cmd covered))
        (λ _ t' h.
          rw h (lost_find _ _ (settled scan_id cmd t) (row_at-settled scan_id cmd t ∙ missing) x))

  created_nil-Meets :
      {Q : Result → Tables → Type 0} (t : Tables)
      → (scan_id == nil_uuid) ≡ true
      → row_at scan_id t ≡ none
      → is_covered has_ledger scan_id cmd t ≡ true
      → X
      → Meets db X t (create_missing codec db has_ledger scan_id cmd) Q
  unfolding create_missing
  created_nil-Meets t nil missing covered x =
      Meets-bind db _ _
        (Meets-on_err db _ _ (lift-Meets db X new (new_row codec scan_id cmd) t writable))
        (λ ent t₁ h₁.
          rw (h₁.0, h₁.1)
            (Meets-bind db _ _ (Meets-on_err db _ _ (insert_nil-Meets t nil missing covered))
              (λ n t₂ h₂.
                Meets-if db (n == 0) _ _ (λ none_. lost_find _ _ t₂ h₂.0 x)
                  (λ one. lost_complete t₂ h₂.0 h₂.1 x))))

  module _ (t : Tables) (missing : row_at scan_id t ≡ none)
      (deleted : exists (λ r. r.id == scan_id) t.scan_results ≡ true → X)
      (nameless : (scan_id == nil_uuid) ≡ true → X) where
    at_scan_id :
        (b : Bool)
        → exists (λ r. r.id == new.id) t.scan_results ≡ b
        → exists (λ r. r.id == scan_id) t.scan_results ≡ b
    at_scan_id b h = subst (λ i. exists (λ r. r.id == i) t.scan_results ≡ b) written.id h

    won_insert :
        contains cmd.source_states pending ≡ true
        → is_covered has_ledger scan_id cmd t ≡ true
        → (m : Moment) → exists (λ r. r.id == new.id) t.scan_results ≡ false
        → Meets db X
            (inserted new m t)
            (complete codec db has_ledger scan_id cmd pending)
            (Applies has_ledger scan_id cmd new t)
    won_insert allowed covered m free =
        Meets-weaken db _
          (λ r t' k. Applies.created m missing (at_scan_id false free) allowed covered k.0 k.1)
          (complete-Meets (inserted new m t) pending (dated new m)
            (row_at-inserted scan_id cmd new written t m missing) covered)

    create_given-Meets :
        (scan_id == nil_uuid) ≡ false
        → contains cmd.source_states pending ≡ true
        → is_covered has_ledger scan_id cmd t ≡ true
        → Meets db X t
            (create_missing codec db has_ledger scan_id cmd)
            (Applies has_ledger scan_id cmd new t)
    unfolding create_missing
    create_given-Meets given allowed covered =
        Meets-bind db _ _
          (Meets-on_err db _ _ (lift-Meets db X new (new_row codec scan_id cmd) t writable))
          (λ ent t₁ h₁.
            rw (h₁.0, h₁.1)
              (Meets-bind db _ _ (Meets-on_err db _ _ (insert_scan-Meets t given)) (λ n t₂ h₂.
                elim h₂ [
                  | inl taken ↦
                      rw (taken.0, taken.2)
                        (lost_find _ _ t missing (deleted (at_scan_id true taken.1)))
                  | inr won ↦ rw (won.1, won.3) (won_insert allowed covered won.0 won.2)
                ])))

    create_missing-Meets :
        contains cmd.source_states pending ≡ true
        → is_covered has_ledger scan_id cmd t ≡ true
        → Meets db X t
            (create_missing codec db has_ledger scan_id cmd)
            (Applies has_ledger scan_id cmd new t)
    create_missing-Meets allowed covered = elim (Bool-cases (scan_id == nil_uuid)) [
      | inl nil ↦ created_nil-Meets t nil missing covered (nameless nil)
      | inr given ↦ create_given-Meets given allowed covered
    ]

    apply_missing-Meets :
        Meets db X t
          (apply_missing codec db has_ledger scan_id cmd)
          (Applies has_ledger scan_id cmd new t)
    unfolding apply_missing
    apply_missing-Meets =
        Meets-if db (not (contains cmd.source_states pending)) _ _
          (λ out. Meets-pure db _ (Applies.refused_missing missing (ground arith) refl refl))
          (λ inside.
            covered-Meets t none pending _ missing refl (ground arith) refl
              (create_missing-Meets (ground arith)))

  pub apply_tx-Meets :
      (t : Tables)
      → (row_at scan_id t ≡ none → exists (λ r. r.id == scan_id) t.scan_results ≡ true → X)
      → (row_at scan_id t ≡ none → (scan_id == nil_uuid) ≡ true → X)
      → Meets db X t
          (apply_tx codec db has_ledger scan_id cmd)
          (Applies has_ledger scan_id cmd new t)
  unfolding apply_tx
  apply_tx-Meets t deleted nameless =
      Meets-bind db _ _
        (Meets-on_err db _ _ (find_scan-Meets codec db serial has_ledger scan_id blame t))
        (λ o t' h. elim (Option-cases (row_at scan_id t)) [
          | inl missing ↦
              let e : o ≡ none = h.0 ∙ missing in
              rw (e, h.1) (apply_missing-Meets t missing (deleted missing) (nameless missing))
          | inr (ent, found_) ↦
              let e : o ≡ some ent = h.0 ∙ found_ in rw (e, h.1) (apply_existing-Meets t ent found_)
        ])
