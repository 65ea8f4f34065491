-- ===== src/ScanEvents/Limits.antt =====
-- The limit of a user for TLS scans, under the statements of the handlers.
use cafe_persistence.Prelude.{
  ℕ, ◌+◌, ◌≤◌, subst, String, ◌≡◌, sym, Bool, true, false, List, [], ◌∷◌, ◌++◌, arith, ltb, ◌==◌,
  ==_iff, ℤ, is_non_positive, pos_part, Exec, Bool-cases, inl, inr,
}
use cafe_persistence.Domain.{Uuid, ScanUsageEventEntity, kind_endpoint}
use cafe_persistence.Domain.Plan.{Plan, User}
use cafe_persistence.Domain.Tls.{TlsScanResultEntity}
use cafe_persistence.Db.{Error, Moment, Database, IsSerial, statement}
use cafe_persistence.Db.Table.{count, delete, count-append}
use cafe_persistence.Db.Preserves.{
  Preserves, pure-Preserves, bind-Preserves, if-Preserves, statement-Preserves,
}
use cafe_persistence.Tables.{Tables, Statement, on_tls_scan_results, on_scan_usage_events}
use cafe_persistence.Ledger.{
  of_scan, of_user_kind, usage_event, insert_usage, insert_usage_under, validate_scan_usage_kind,
  record_success_usage_in_tx, record_success_usage_if_under_limit_in_tx,
  has_success_usage_for_scan_in_tx, release_success_usage_by_scan_id_in_tx, is_scan_usage_kind,
}
use cafe_persistence.Ledger.Quota.{credits}

-- The users and plans are the given ones, and the user has no more credits than the limit.
pub record WithinLimit (users : List User) (plans : List Plan) (user_id : Uuid) (limit : ℕ)
    (t : Tables) : Type 0 where
  pub same_users : t.users ≡ users
  pub same_plans : t.plans ≡ plans
  pub within : credits user_id kind_endpoint t ≤ limit

absurd_limit : {A : Type 0} → true ≡ false → A
absurd_limit h = cc

count-delete-le : {R : Type 0} (p q : R → Bool) (rs : List R) → count q (delete p rs) ≤ count q rs
unfolding count delete
count-delete-le p q [] = omega arith
count-delete-le p q (r ∷ rs) = ground (arith, count-delete-le p q rs)

module _ (db : Database Tables) (serial : IsSerial db) (users : List User) (plans : List Plan)
    (user_id : Uuid) (limit : ℕ) where
  abbrev pub Inv : Tables → Type 0
  Inv = WithinLimit users plans user_id limit

  abbrev pub Keeps : {A : Type 0} → Exec db.Conn Error A → Type 0
  Keeps m = Preserves db Inv m

  -- the statements on the TLS rows
  pub tls-Keeps :
      {A : Type 0} (f : Statement TlsScanResultEntity A)
      → Keeps (statement db (on_tls_scan_results f))
  tls-Keeps f =
      statement-Preserves db Inv _ serial
        λ m t h. record { same_users = h.same_users; same_plans = h.same_plans; within = h.within }

  -- a statement on the ledger that leaves the user within the limit
  ledger-Keeps :
      {A : Type 0} (f : Statement ScanUsageEventEntity A)
      → ((m : Moment) (rows : List ScanUsageEventEntity)
          → count (of_user_kind user_id kind_endpoint) rows ≤ limit
          → count (of_user_kind user_id kind_endpoint) (f m rows).1 ≤ limit)
      → Keeps (statement db (on_scan_usage_events f))
  ledger-Keeps f keep = statement-Preserves db Inv _ serial λ m t h. record {
    same_users = h.same_users;
    same_plans = h.same_plans;
    within = keep m t.scan_usage_events h.within;
  }

  pub release-Keeps : (scan_id : Uuid) → Keeps (release_success_usage_by_scan_id_in_tx db scan_id)
  unfolding release_success_usage_by_scan_id_in_tx
  release-Keeps scan_id = ledger-Keeps _ λ m rows h.
      omega (arith, h, count-delete-le (of_scan scan_id) (of_user_kind user_id kind_endpoint) rows)

  pub has_usage-Keeps : (scan_id : Uuid) → Keeps (has_success_usage_for_scan_in_tx db scan_id)
  unfolding has_success_usage_for_scan_in_tx
  has_usage-Keeps scan_id = ledger-Keeps _ λ m rows h. h

  validate-Keeps : (kind : String) → Keeps (validate_scan_usage_kind db kind)
  unfolding validate_scan_usage_kind
  validate-Keeps kind =
      if-Preserves db Inv (is_scan_usage_kind kind) _ _ (pure-Preserves db Inv _)
        (pure-Preserves db Inv _)

  -- a credit of another user
  other-append :
      (other scan_id : Uuid) (kind : String) (m : Moment) (rows : List ScanUsageEventEntity)
      → (other == user_id) ≡ false
      → count (of_user_kind user_id kind_endpoint) (rows ++ usage_event other scan_id kind m ∷ [])
        ≡ count (of_user_kind user_id kind_endpoint) rows
  other-append other scan_id kind m rows apart = ground (
    arith,
    apart,
    count-append (of_user_kind user_id kind_endpoint) rows (usage_event other scan_id kind m),
  )

  any-append :
      (other scan_id : Uuid) (kind : String) (m : Moment) (rows : List ScanUsageEventEntity)
      → count (of_user_kind user_id kind_endpoint) (rows ++ usage_event other scan_id kind m ∷ [])
        ≤ count (of_user_kind user_id kind_endpoint) rows + 1
  any-append other scan_id kind m rows = ground (
    arith,
    count-append (of_user_kind user_id kind_endpoint) rows (usage_event other scan_id kind m),
  )

  record_other-Keeps :
      (other scan_id : Uuid) (kind : String)
      → (other == user_id) ≡ false
      → Keeps (record_success_usage_in_tx db other scan_id kind)
  unfolding record_success_usage_in_tx insert_usage
  record_other-Keeps other scan_id kind apart = bind-Preserves db Inv _ (validate-Keeps kind) λ u.
      ledger-Keeps _ λ m rows h. ground (arith, h, other-append other scan_id kind m rows apart)

  -- whose limit is known, if it is the user's
  abbrev pub Limited : Uuid → ℤ → Bool → Type 0
  Limited other l unlimited =
      (other == user_id) ≡ true
      → (unlimited ≡ false) × (is_non_positive l ≡ false) × (pos_part l ≡ limit)

  room-append :
      (scan_id : Uuid) (m : Moment) (rows : List ScanUsageEventEntity)
      → ltb (count (of_user_kind user_id kind_endpoint) rows) limit ≡ true
      → count
          (of_user_kind user_id kind_endpoint)
          (rows ++ usage_event user_id scan_id kind_endpoint m ∷ [])
        ≤ limit
  room-append scan_id m rows room =
      ground (arith, room, any-append user_id scan_id kind_endpoint m rows)

  under_own_limit-Keeps :
      (scan_id : Uuid) (l : ℤ)
      → is_non_positive l ≡ false
      → pos_part l ≡ limit
      → Keeps (record_success_usage_if_under_limit_in_tx db user_id scan_id kind_endpoint l)
  unfolding record_success_usage_if_under_limit_in_tx insert_usage_under
  under_own_limit-Keeps scan_id l p e =
      rw (p, e)
        (bind-Preserves db Inv _ (validate-Keeps kind_endpoint)
          λ u. ledger-Keeps _ λ m rows h. ground (arith, h, room-append scan_id m rows))

  under_other_limit-Keeps :
      (other scan_id : Uuid) (l : ℤ)
      → (other == user_id) ≡ false
      → Keeps (record_success_usage_if_under_limit_in_tx db other scan_id kind_endpoint l)
  unfolding record_success_usage_if_under_limit_in_tx insert_usage_under
  under_other_limit-Keeps other scan_id l apart =
      if-Preserves db Inv (is_non_positive l) _ _
        (bind-Preserves db Inv _ (record_other-Keeps other scan_id kind_endpoint apart)
          λ u. pure-Preserves db Inv _)
        (bind-Preserves db Inv _ (validate-Keeps kind_endpoint) λ u.
          ledger-Keeps _
            λ m rows h. ground (arith, h, other-append other scan_id kind_endpoint m rows apart))

  pub under_limit-Keeps :
      (other scan_id : Uuid) (l : ℤ)
      → Limited other l false
      → Keeps (record_success_usage_if_under_limit_in_tx db other scan_id kind_endpoint l)
  under_limit-Keeps other scan_id l known = elim (Bool-cases (other == user_id)) [
    | inl mine ↦
        let (_, positive, same) = known mine in
        subst (λ x. Keeps (record_success_usage_if_under_limit_in_tx db x scan_id kind_endpoint l))
          (sym ((==_iff other user_id).0 mine)) (under_own_limit-Keeps scan_id l positive same)
    | inr apart ↦ under_other_limit-Keeps other scan_id l apart
  ]

  -- without a limit
  pub unlimited-Keeps :
      (other scan_id : Uuid) (l : ℤ)
      → Limited other l true
      → Keeps (record_success_usage_in_tx db other scan_id kind_endpoint)
  unlimited-Keeps other scan_id l known = elim (Bool-cases (other == user_id)) [
    | inl mine ↦ absurd_limit (known mine).0
    | inr apart ↦ record_other-Keeps other scan_id kind_endpoint apart
  ]
