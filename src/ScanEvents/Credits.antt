-- ===== src/ScanEvents/Credits.antt =====
-- What a committed TLS completion means for the credits of the ledger.
use cafe_persistence.Prelude.{
  ◌≤◌, ◌≡◌, refl, sym, subst, Option-cases, ◌==◌, ◌∙◌, ap, Bool, true, false, ◌⊎◌, inl, inr, none,
  some, arith, if◌then◌else◌, String, ℤ, is_non_positive, pos_part, ok,
}
use cafe_persistence.Domain.{Uuid, nil_uuid, kind_endpoint}
use cafe_persistence.Domain.Tls.{TlsScanResult, TlsScanResultEntity}
use cafe_persistence.Scan.{success, failed}
use cafe_persistence.Db.{Moment, IsSerial}
use cafe_persistence.Db.Table.{first-holds}
use cafe_persistence.Db.Meets.{answered, committed_or_same}
use cafe_persistence.Tables.{Tables, tls_at, before_create}
use cafe_persistence.Ledger.{has_credit}
use cafe_persistence.Ledger.Quota.{credits, has_room, charged, has_credit-charged, credits-charged}
use cafe_persistence.PlanLimit.{endpoint_limit}
use cafe_persistence.Storage.Tls.Writes.{tls_row, IsRecorded}
use cafe_persistence.ScanEvents.{View, Services}
use cafe_persistence.ScanEvents.Commit.{commit_tls_completion, has_no_quota}
use cafe_persistence.ScanEvents.Quota.{Confirms, confirmed, taken, over_limit}
use cafe_persistence.ScanEvents.Completion.{final_row, reported_url, IsCompleted, commit-refines}

same_credit :
    (scan_id : Uuid) (t t' : Tables)
    → t'.scan_usage_events ≡ t.scan_usage_events
    → has_credit scan_id t' ≡ has_credit scan_id t
same_credit scan_id t t' e = rw e refl

module _ (user_id scan_id : Uuid) (kind : String) (limit : ℤ) (unlimited : Bool)
    (t t' : Tables) where
  -- A scan ends with a credit exactly if its completion was acquired.
  Confirms-credit :
      (acquired : Bool)
      → Confirms user_id scan_id kind limit unlimited t acquired t'
      → has_credit scan_id t' ≡ acquired
  Confirms-credit acquired (confirmed h a e) = rw (e, a) h
  Confirms-credit acquired (taken m h _ a e) =
      rw (e, a) (has_credit-charged user_id scan_id kind m t)
  Confirms-credit acquired (over_limit h _ _ a e) = rw (e, a) h

  room_bound :
      (m : Moment)
      → unlimited ≡ false
      → is_non_positive limit ≡ false
      → (unlimited ≡ true) ⊎ (has_room user_id kind limit t ≡ true)
      → credits user_id kind (charged user_id scan_id kind m t) ≤ pos_part limit
  room_bound m u p room = ground (arith, room, credits-charged user_id scan_id kind m t)

  -- A user within the limit stays within it.
  Confirms-bound :
      (acquired : Bool)
      → unlimited ≡ false
      → is_non_positive limit ≡ false
      → credits user_id kind t ≤ pos_part limit
      → Confirms user_id scan_id kind limit unlimited t acquired t'
      → credits user_id kind t' ≤ pos_part limit
  Confirms-bound acquired u p within (confirmed _ _ e) = rw e within
  Confirms-bound acquired u p within (taken m _ room _ e) = rw e (room_bound m u p room)
  Confirms-bound acquired u p within (over_limit _ _ _ _ e) = rw e within

  Confirms-replay :
      (acquired : Bool)
      → has_credit scan_id t ≡ true
      → Confirms user_id scan_id kind limit unlimited t acquired t'
      → (acquired ≡ true) × (t' ≡ t)
  Confirms-replay acquired h (confirmed _ a e) = (a, e)
  Confirms-replay acquired h (taken m h' _ _ _) = ground (arith, h')
  Confirms-replay acquired h (over_limit h' _ _ _ _) = ground (arith, h')

module _ (msg : View) (entity : TlsScanResultEntity) (url : String)
    (given : (msg.scan_id == nil_uuid) ≡ false) where
  -- the row of the scan, with the status of its completion
  abbrev IsEnding : Bool → TlsScanResultEntity → Type 0
  IsEnding acquired row =
      (row.id ≡ msg.scan_id) × (row.status ≡ (if acquired then success else failed))

  new_row-IsEnding : (b : Bool) (m : Moment) → IsEnding b (final_row msg entity url b m none)
  unfolding before_create
  new_row-IsEnding true m = rw given (refl, refl)
  new_row-IsEnding false m = rw given (refl, refl)

  old_row-IsEnding :
      (b : Bool) (m : Moment) (old : TlsScanResultEntity)
      → tls_at msg.scan_id old ≡ true
      → IsEnding b (final_row msg entity url b m (some old))
  old_row-IsEnding true m old h = (refl, refl)
  old_row-IsEnding false m old h = (ground arith, refl)

  final_row-IsEnding :
      (b : Bool) (m : Moment) (t : Tables)
      → IsEnding b (final_row msg entity url b m (tls_row msg.scan_id t))
  final_row-IsEnding b m t = elim (Option-cases (tls_row msg.scan_id t)) [
    | inl missing ↦ rw missing (new_row-IsEnding b m)
    | inr (old, found) ↦
        rw found
          (old_row-IsEnding b m old (first-holds (tls_at msg.scan_id) t.tls_scan_results old found))
  ]

  IsRecorded-IsEnding :
      (b : Bool) (t t' : Tables)
      → IsRecorded msg.scan_id (final_row msg entity url b) t t'
      → (row : TlsScanResultEntity) × (tls_row msg.scan_id t' ≡ some row)
        × (row.status ≡ (if b then success else failed))
  IsRecorded-IsEnding b t t' h =
      let (id, status) = subst (IsEnding b) (sym h.row_is) (final_row-IsEnding b h.moment t) in
      (h.row, ap (λ i. tls_row i t') (sym id) ∙ h.found, status)

module _ (s : Services) (serial : IsSerial s.db) (msg : View) (entity : TlsScanResultEntity)
    (live : entity.deleted_at ≡ none) (result : TlsScanResult) (c : s.db.Conn)
    (quota : has_no_quota s msg ≡ false) where
  completed-credit :
      (msg.scan_id == nil_uuid) ≡ false
      → (acquired : Bool) (t' : Tables)
      → IsCompleted msg entity (reported_url msg entity result) (s.db.seen c) acquired t'
      → (has_credit msg.scan_id t' ≡ acquired)
        × (row : TlsScanResultEntity) × (tls_row msg.scan_id t' ≡ some row)
        × (row.status ≡ (if acquired then success else failed))
  completed-credit given acquired t' h =
      let (row, found, status) =
        IsRecorded-IsEnding msg entity _ given acquired h.settled t' h.recorded in
      (
        same_credit msg.scan_id h.settled t' h.recorded.ledger
            ∙ Confirms-credit msg.user_id msg.scan_id kind_endpoint _ _ (s.db.seen c) h.settled
                acquired h.confirms,
        row,
        found,
        status,
      )

  -- Where the quota applies, nobody else writes, the result is not marked deleted and the scan's id
  -- is not nil, an answered completion leaves the scan with a credit exactly if it was acquired,
  -- and with a row that is SUCCESS then and FAILED else.
  pub completion_has_credit :
      (msg.scan_id == nil_uuid) ≡ false
      → (acquired : Bool) → (commit_tls_completion s msg entity result c).0 ≡ ok acquired
      → let t' = s.db.seen (commit_tls_completion s msg entity result c).1 in
        (has_credit msg.scan_id t' ≡ acquired)
        × (row : TlsScanResultEntity) × (tls_row msg.scan_id t' ≡ some row)
        × (row.status ≡ (if acquired then success else failed))
  completion_has_credit given acquired e = completed-credit given acquired _ (
      answered (IsCompleted msg entity (reported_url msg entity result) (s.db.seen c)) _
        (s.db.seen c) _ _ acquired e
        (commit-refines s serial msg entity live (s.db.seen c) result c quota refl))

  completed_within :
      (acquired : Bool) (t' : Tables)
      → (endpoint_limit msg.user_id (s.db.seen c)).1 ≡ false
      → is_non_positive (endpoint_limit msg.user_id (s.db.seen c)).0 ≡ false
      → credits msg.user_id kind_endpoint (s.db.seen c)
        ≤ pos_part (endpoint_limit msg.user_id (s.db.seen c)).0
      → IsCompleted msg entity (reported_url msg entity result) (s.db.seen c) acquired t'
      → credits msg.user_id kind_endpoint t' ≤ pos_part (endpoint_limit msg.user_id (s.db.seen c)).0
  completed_within acquired t' u p within h = rw h.recorded.ledger (
      Confirms-bound msg.user_id msg.scan_id kind_endpoint _ _ (s.db.seen c) h.settled acquired u p
        within h.confirms)

  -- Where the quota applies, nobody else writes and the plan of the user has a positive limit for
  -- TLS scans, a user with no more credits than the limit has no more after a completion, whatever
  -- it answers.
  pub within_limit :
      (endpoint_limit msg.user_id (s.db.seen c)).1 ≡ false
      → is_non_positive (endpoint_limit msg.user_id (s.db.seen c)).0 ≡ false
      → credits msg.user_id kind_endpoint (s.db.seen c)
        ≤ pos_part (endpoint_limit msg.user_id (s.db.seen c)).0
      → credits msg.user_id kind_endpoint
          (s.db.seen (commit_tls_completion s msg entity result c).1)
        ≤ pos_part (endpoint_limit msg.user_id (s.db.seen c)).0
  within_limit u p within =
      elim (committed_or_same
        (IsCompleted msg entity (reported_url msg entity result) (s.db.seen c)) _ (s.db.seen c) _ _
        (commit-refines s serial msg entity live (s.db.seen c) result c quota refl)) [
          | inl (acquired, h) ↦ completed_within acquired _ u p within h
          | inr same ↦ rw same within
        ]

  -- Where the quota applies and nobody else writes, an answered completion of a scan that has its
  -- credit is acquired and takes no other: the ledger is the same.
  pub completion_again :
      (acquired : Bool)
      → has_credit msg.scan_id (s.db.seen c) ≡ true
      → (commit_tls_completion s msg entity result c).0 ≡ ok acquired
      → (acquired ≡ true)
        × ((s.db.seen (commit_tls_completion s msg entity result c).1).scan_usage_events
            ≡ (s.db.seen c).scan_usage_events)
  completion_again acquired kept e =
      let h =
        answered (IsCompleted msg entity (reported_url msg entity result) (s.db.seen c)) _
          (s.db.seen c) _ _ acquired e
          (commit-refines s serial msg entity live (s.db.seen c) result c quota refl) in
      let k =
        Confirms-replay msg.user_id msg.scan_id kind_endpoint _ _ (s.db.seen c) h.settled acquired
          kept h.confirms in
      (k.0, h.recorded.ledger ∙ ap (λ (x : Tables). x.scan_usage_events) k.1)
