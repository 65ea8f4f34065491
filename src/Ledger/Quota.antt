-- ===== src/Ledger/Quota.antt =====
-- What the statements of the ledger promise while nobody else writes.
use cafe_persistence.Prelude.{
  ℕ, ◌+◌, String, ◌≡◌, refl, ◌∙◌, Bool, true, false, inl, inr, [], ◌∷◌, ◌++◌, arith, if◌then◌else◌,
  ltb, ==-refl, str_eq_iff, ℤ, is_non_positive, pos_part, Bool-cases,
}
use cafe_persistence.Domain.{Uuid}
use cafe_persistence.Db.{Moment, Database, IsSerial}
use cafe_persistence.Db.Table.{count, exists, count-append, exists-count}
use cafe_persistence.Db.Meets.{Meets, Meets-pure, Meets-bind, Meets-if, Meets-statement}
use cafe_persistence.Tables.{Tables}
use cafe_persistence.Ledger.{
  of_scan, of_user_kind, has_credit, usage_event, insert_usage, insert_usage_under,
  is_scan_usage_kind, validate_scan_usage_kind, record_success_usage_in_tx,
  record_success_usage_if_under_limit_in_tx, has_success_usage_for_scan_in_tx,
}

-- credits of a user for a kind
abbrev pub credits : Uuid → String → Tables → ℕ
credits user_id kind t = count (of_user_kind user_id kind) t.scan_usage_events

-- May one more credit of the kind be taken?
abbrev pub has_room : Uuid → String → ℤ → Tables → Bool
has_room user_id kind limit t =
    if is_non_positive limit then true else ltb (credits user_id kind t) (pos_part limit)

abbrev pub charged : Uuid → Uuid → String → Moment → Tables → Tables
charged user_id scan_id kind m t = record t {
  scan_usage_events = t.scan_usage_events ++ usage_event user_id scan_id kind m ∷ [];
}

pub has_credit-charged :
    (user_id scan_id : Uuid) (kind : String) (m : Moment) (t : Tables)
    → has_credit scan_id (charged user_id scan_id kind m t) ≡ true
has_credit-charged user_id scan_id kind m t = ground (
  arith,
  ==-refl scan_id,
  count-append (of_scan scan_id) t.scan_usage_events (usage_event user_id scan_id kind m),
)

pub credits-charged :
    (user_id scan_id : Uuid) (kind : String) (m : Moment) (t : Tables)
    → credits user_id kind (charged user_id scan_id kind m t) ≡ credits user_id kind t + 1
credits-charged user_id scan_id kind m t = ground (
  arith,
  ==-refl user_id,
  str_eq_iff kind kind,
  count-append (of_user_kind user_id kind) t.scan_usage_events (usage_event user_id scan_id kind m),
)

module _ (db : Database Tables) (serial : IsSerial db) {X : Type 0}
    (blame : (c : db.Conn) → db.fails c ≡ true → X) (t : Tables) (scan_id : Uuid) where
  validate-Meets :
      (kind : String)
      → is_scan_usage_kind kind ≡ true
      → Meets db X t (validate_scan_usage_kind db kind) (λ _ t'. t' ≡ t)
  unfolding validate_scan_usage_kind
  validate-Meets kind valid = rw valid (Meets-pure db tt refl)

  pub has_success_usage-Meets :
      Meets db X t
        (has_success_usage_for_scan_in_tx db scan_id)
        (λ b t'. (b ≡ has_credit scan_id t) × (t' ≡ t))
  unfolding has_success_usage_for_scan_in_tx
  has_success_usage-Meets = Meets-statement db serial blame _ (λ m. (refl, refl))

  module _ (user_id : Uuid) (kind : String) (valid : is_scan_usage_kind kind ≡ true)
      (fresh : has_credit scan_id t ≡ false) where
    free : exists (of_scan scan_id) t.scan_usage_events ≡ false
    free = exists-count (of_scan scan_id) t.scan_usage_events ∙ fresh

    pub record_success_usage-Meets :
        Meets db X t
          (record_success_usage_in_tx db user_id scan_id kind)
          (λ _ t'. (m : Moment) × (t' ≡ charged user_id scan_id kind m t))
    unfolding record_success_usage_in_tx insert_usage
    record_success_usage-Meets =
        Meets-bind db _ _ (validate-Meets kind valid)
          (λ _ t' e. rw e (Meets-statement db serial blame _ (λ m. rw free (m, refl))))

    -- The credit is taken exactly if there is room.
    pub record_under_limit-Meets :
        (limit : ℤ)
        → Meets db X t
            (record_success_usage_if_under_limit_in_tx db user_id scan_id kind limit)
            (λ b t'.
              (b ≡ has_room user_id kind limit t)
              × (if b then ((m : Moment) × (t' ≡ charged user_id scan_id kind m t)) else t' ≡ t))
    unfolding record_success_usage_if_under_limit_in_tx insert_usage_under
    record_under_limit-Meets limit =
        Meets-if db (is_non_positive limit) _ _
          (λ no_limit.
            Meets-bind db _ _ record_success_usage-Meets
              (λ _ t' h. Meets-pure db true (rw no_limit refl, h)))
          (λ limited. Meets-bind db _ _ (validate-Meets kind valid) (λ _ t' e. rw e (
            Meets-statement db serial blame _ (λ m.
              elim (Bool-cases (ltb (credits user_id kind t) (pos_part limit))) [
                | inl room ↦ rw (limited, room, free) (refl, (m, refl))
                | inr full ↦ rw (limited, full) (refl, refl)
              ]))))
