-- ===== src/ScanEvents/Quota.antt =====
-- The quota of a TLS completion: what the transaction of commitTLSCompletion does.
use cafe_persistence.Prelude.{
  String, ◌≡◌, refl, sym, ◌∙◌, Bool, true, false, ◌⊎◌, inl, inr, if◌then◌else◌, ℤ, pure,
}
use cafe_persistence.Domain.{Uuid}
use cafe_persistence.Db.{Moment, IsSerial}
use cafe_persistence.Db.Meets.{Meets, Meets-pure, Meets-bind, Meets-if, Meets-weaken}
use cafe_persistence.Tables.{Tables}
use cafe_persistence.Ledger.{has_credit, is_scan_usage_kind, has_success_usage_for_scan_in_tx}
use cafe_persistence.Ledger.Quota.{
  has_room, charged, has_success_usage-Meets, record_success_usage-Meets, record_under_limit-Meets,
}
use cafe_persistence.ScanEvents.{Services}
use cafe_persistence.ScanEvents.Commit.{confirm_existing_usage_or_acquire}

-- What confirmExistingUsageOrAcquire does to the ledger: a scan with a credit keeps it; another is
-- charged if there is room; else nothing changes and the completion is refused.
pub data Confirms (user_id scan_id : Uuid) (kind : String) (limit : ℤ) (unlimited : Bool)
    (t : Tables) (acquired : Bool) (t' : Tables) : Type 0 where
  confirmed :
      has_credit scan_id t ≡ true
      → acquired ≡ true
      → t' ≡ t
      → Confirms user_id scan_id kind limit unlimited t acquired t'
  taken :
      (m : Moment)
      → has_credit scan_id t ≡ false
      → (unlimited ≡ true) ⊎ (has_room user_id kind limit t ≡ true)
      → acquired ≡ true
      → t' ≡ charged user_id scan_id kind m t
      → Confirms user_id scan_id kind limit unlimited t acquired t'
  over_limit :
      has_credit scan_id t ≡ false
      → unlimited ≡ false
      → has_room user_id kind limit t ≡ false
      → acquired ≡ false
      → t' ≡ t
      → Confirms user_id scan_id kind limit unlimited t acquired t'

module _ (s : Services) (serial : IsSerial s.db) {X : Type 0}
    (blame : (c : s.db.Conn) → s.db.fails c ≡ true → X) (t : Tables) (user_id scan_id : Uuid)
    (kind : String) (valid : is_scan_usage_kind kind ≡ true) (limit : ℤ) where
  -- after the conditional insert, with the second read of a scan that was not charged
  after_insert :
      (acquired : Bool) (t₂ : Tables)
      → has_credit scan_id t ≡ false
      → acquired ≡ has_room user_id kind limit t
      → (if acquired then ((m : Moment) × (t₂ ≡ charged user_id scan_id kind m t)) else t₂ ≡ t)
      → Meets s.db X t₂
          (if acquired then pure true else has_success_usage_for_scan_in_tx s.db scan_id)
          (Confirms user_id scan_id kind limit false t)
  after_insert true t₂ fresh e h =
      Meets-pure s.db true (Confirms.taken h.0 fresh (inr (sym e)) refl h.1)
  after_insert false t₂ fresh e h = rw h (
      Meets-weaken s.db _ (λ b t' k. Confirms.over_limit fresh refl (sym e) (k.0 ∙ fresh) k.1)
        (has_success_usage-Meets s.db serial blame t scan_id))

  pub confirm-Meets :
      (unlimited : Bool)
      → Meets s.db X t
          (confirm_existing_usage_or_acquire s user_id scan_id kind limit unlimited)
          (Confirms user_id scan_id kind limit unlimited t)
  unfolding confirm_existing_usage_or_acquire
  confirm-Meets unlimited =
      Meets-bind s.db _ _ (has_success_usage-Meets s.db serial blame t scan_id) (λ reserved t' h.
        rw h.1 (
          Meets-if s.db reserved _ _
            (λ kept. Meets-pure s.db true (Confirms.confirmed (sym h.0 ∙ kept) refl refl))
            (λ lacking.
              let fresh : has_credit scan_id t ≡ false = sym h.0 ∙ lacking in
              Meets-if s.db unlimited _ _
                (λ free.
                  Meets-bind s.db _ _
                    (record_success_usage-Meets s.db serial blame t scan_id user_id kind valid
                      fresh)
                    (λ _ t₂ k. Meets-pure s.db true (Confirms.taken k.0 fresh (inl free) refl k.1)))
                (λ limited.
                  Meets-bind s.db _ _
                    (record_under_limit-Meets s.db serial blame t scan_id user_id kind valid fresh
                      limit)
                    (λ acquired t₂ k. rw limited (after_insert acquired t₂ fresh k.0 k.1))))))
