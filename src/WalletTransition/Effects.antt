-- ===== src/WalletTransition/Effects.antt =====
-- What callers of Apply may rely on, read off its specification.
use cafe_persistence.Prelude.{
  String, ◌≡◌, ◌≢◌, refl, sym, ◌∙◌, ap, Bool, true, false, ◌⊎◌, inl, inr, some, arith, ◌==◌,
  str_eq_iff, if◌then◌else◌,
}
use cafe_persistence.Domain.{Uuid, ScanResultEntity}
use cafe_persistence.Tables.{Tables}
use cafe_persistence.WalletTransition.{
  Command, Result, outcome_of, applied, already_applied, already_running, already_terminal,
  retryable, rejected, contains, classify,
}
use cafe_persistence.WalletTransition.Rows.{overwrite}
use cafe_persistence.WalletTransition.Apply.{reloaded}
use cafe_persistence.WalletTransition.Spec.{
  row_at, is_covered, settled, overwritten, dated, inserted, state_of, Applies,
}
use cafe_persistence.WalletTransition.Refines.Written.{
  IsWritten, row_at-overwritten, row_at-inserted, row_at-settled, row_at-settled_other,
  row_at-overwritten_other, row_at-inserted_other, settled_ledger,
}

refusal-ne-applied :
    (a b : Bool) (s : String)
    → (if a
        then outcome_of already_running s
        else (if b then outcome_of already_terminal s else outcome_of rejected s)).outcome
      ≢ applied
refusal-ne-applied true b s h = cc ((str_eq_iff already_running applied).1 h)
refusal-ne-applied false true s h = cc ((str_eq_iff already_terminal applied).1 h)
refusal-ne-applied false false s h = cc ((str_eq_iff rejected applied).1 h)

classify-ne-applied :
    (ent : ScanResultEntity) (cmd : Command) → (classify ent cmd).outcome ≢ applied
unfolding classify
classify-ne-applied ent cmd = refusal-ne-applied _ _ _

module _ (has_ledger : Bool) (scan_id : Uuid) (cmd : Command) (new : ScanResultEntity)
    (t t' : Tables) (r : Result) where
  pub only_applied_writes :
      Applies has_ledger scan_id cmd new t r t' → (r.outcome ≡ applied) ⊎ (t' ≡ t)
  only_applied_writes (Applies.replayed ent _ _ _ same) = inr same
  only_applied_writes (Applies.refused ent _ _ _ _ same) = inr same
  only_applied_writes (Applies.refused_missing _ _ _ same) = inr same
  only_applied_writes (Applies.uncovered _ _ _ _ same) = inr same
  only_applied_writes (Applies.updated ent m _ _ _ _ e _) = inl (ap (λ x. x.outcome) e)
  only_applied_writes (Applies.created m _ _ _ _ e _) = inl (ap (λ x. x.outcome) e)

  -- What an applied command has done.
  pub record IsApplied : Type 0 where
    pub allowed : contains cmd.source_states (state_of (row_at scan_id t)) ≡ true
    pub covered : is_covered has_ledger scan_id cmd t ≡ true
    pub stored : ScanResultEntity
    pub found : row_at scan_id t' ≡ some stored
    pub transition : stored.transition_id ≡ some cmd.transition_id
    pub owner : stored.user_id ≡ cmd.user_id
    pub address : stored.address ≡ cmd.address
    pub status : stored.status ≡ new.status
    pub reported : r ≡ reloaded applied stored
    pub others : (j : Uuid) → (j == scan_id) ≡ false → row_at j t' ≡ row_at j t
    pub ledger : t'.scan_usage_events ≡ (settled scan_id cmd t).scan_usage_events

  pub applied-IsApplied :
      IsWritten scan_id cmd new
      → Applies has_ledger scan_id cmd new t r t'
      → r.outcome ≡ applied
      → IsApplied
  unfolding overwrite
  applied-IsApplied w (Applies.replayed ent _ _ e _) h =
      cc ((str_eq_iff already_applied applied).1 (ap (λ (x : Result). x.outcome) (sym e) ∙ h))
  applied-IsApplied w (Applies.refused ent _ _ _ e _) h =
      absurd (classify-ne-applied ent cmd (ap (λ (x : Result). x.outcome) (sym e) ∙ h))
  applied-IsApplied w (Applies.refused_missing _ _ e _) h =
      cc ((str_eq_iff rejected applied).1 (ap (λ (x : Result). x.outcome) (sym e) ∙ h))
  applied-IsApplied w (Applies.uncovered _ _ _ e _) h =
      cc ((str_eq_iff retryable applied).1 (ap (λ (x : Result). x.outcome) (sym e) ∙ h))
  applied-IsApplied w (Applies.updated ent m found _ allowed covered e e') h = record {
    allowed = rw found allowed;
    covered = covered;
    stored = overwrite cmd new m.now ent;
    found = rw e' (
        row_at-settled scan_id cmd (overwritten scan_id cmd new m t)
        ∙ row_at-overwritten scan_id cmd new w t ent m found allowed);
    transition = ground (arith, w);
    owner = ground (arith, w);
    address = ground (arith, w);
    status = ground (arith, w);
    reported = e;
    others = λ j ne. rw e' (
        row_at-settled_other scan_id cmd j (overwritten scan_id cmd new m t)
        ∙ row_at-overwritten_other scan_id cmd new w t m j ne);
    ledger = rw e' (settled_ledger scan_id cmd t (overwritten scan_id cmd new m t) refl);
  }
  applied-IsApplied w (Applies.created m missing free allowed covered e e') h = record {
    allowed = rw missing allowed;
    covered = covered;
    stored = dated new m;
    found = rw e' (
        row_at-settled scan_id cmd (inserted new m t)
        ∙ row_at-inserted scan_id cmd new w t m missing);
    transition = w.transition;
    owner = w.owner;
    address = w.address;
    status = refl;
    reported = e;
    others = λ j ne. rw e' (
        row_at-settled_other scan_id cmd j (inserted new m t)
        ∙ row_at-inserted_other scan_id cmd new w t m j ne);
    ledger = rw e' (settled_ledger scan_id cmd t (inserted new m t) refl);
  }
