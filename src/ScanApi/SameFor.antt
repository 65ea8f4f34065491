-- ===== src/ScanApi/SameFor.antt =====
-- What the tables hold of one user, and the deletions of another user's scans.
use cafe_persistence.Prelude.{
  ◌≡◌, refl, ◌∙◌, Bool, true, false, Option, none, some, List, [], ◌∷◌, arith, ◌==◌, Try,
  Bool-cases, inl, inr,
}
use cafe_persistence.Domain.{Uuid, ScanResultEntity}
use cafe_persistence.Domain.Tls.{TlsScanResultEntity}
use cafe_persistence.Db.{Error, Moment, Database, IsSerial, statement}
use cafe_persistence.Db.Table.{update}
use cafe_persistence.Db.Ordered.{select}
use cafe_persistence.Tables.{Tables, on_scan_results, on_tls_scan_results}
use cafe_persistence.ScanResults.{
  is_user, owned_wallet_at, user_tls_at, wallet_deleted, tls_deleted, soft_delete,
}

abbrev pub wallets_of : Uuid → List ScanResultEntity → List ScanResultEntity
wallets_of user_id = select (λ r. r.user_id == user_id)

abbrev pub tls_of : Uuid → List TlsScanResultEntity → List TlsScanResultEntity
tls_of user_id = select (λ r. is_user user_id r.user_id)

-- What the two tables of scans hold of a user, deleted rows included, and all of the other tables.
pub record SameFor (user_id : Uuid) (t t' : Tables) : Type 0 where
  pub wallets : wallets_of user_id t'.scan_results ≡ wallets_of user_id t.scan_results
  pub tls : tls_of user_id t'.tls_scan_results ≡ tls_of user_id t.tls_scan_results
  pub usage : t'.scan_usage_events ≡ t.scan_usage_events
  pub users : t'.users ≡ t.users
  pub plans : t'.plans ≡ t.plans

select-update_other :
    {R : Type 0} (p q : R → Bool) (f : R → R) (rs : List R)
    → ((r : R) → p r ≡ true → (q r ≡ false) × (q (f r) ≡ false))
    → select q (update p f rs) ≡ select q rs
unfolding select update
select-update_other p q f [] apart = refl
select-update_other p q f (r ∷ rs) apart =
    ground (arith, apart r, select-update_other p q f rs apart)

module _ (user_id : Uuid) where
  pub SameFor-refl : (t : Tables) → SameFor user_id t t
  SameFor-refl t = record { wallets = refl; tls = refl; usage = refl; users = refl; plans = refl }

  pub SameFor-trans :
      (t t' t'' : Tables) → SameFor user_id t t' → SameFor user_id t' t'' → SameFor user_id t t''
  SameFor-trans t t' t'' h k = record {
    wallets = k.wallets ∙ h.wallets;
    tls = k.tls ∙ h.tls;
    usage = k.usage ∙ h.usage;
    users = k.users ∙ h.users;
    plans = k.plans ∙ h.plans;
  }

  -- a statement leaves the user's rows as they were
  abbrev pub Spares : {A : Type 0} → (Moment → Tables → Try Error A × Tables) → Type 0
  Spares f = (m : Moment) (t : Tables) → SameFor user_id t (f m t).1

  pub statement-SameFor :
      {A : Type 0} (db : Database Tables) (f : Moment → Tables → Try Error A × Tables)
      → IsSerial db
      → Spares f
      → (c : db.Conn) → SameFor user_id (db.seen c) (db.seen (statement db f c).1)
  unfolding statement
  statement-SameFor db f serial spares c = elim (Bool-cases (db.fails c)) [
    | inl down ↦ rw (down, serial.seen-next) (SameFor-refl (db.seen c))
    | inr up ↦ rw (up, serial.seen-next) (spares (db.clock c) (db.seen c))
  ]

  pub wallet-Spares :
      (owner scan_id : Uuid)
      → (owner == user_id) ≡ false
      → Spares (on_scan_results (soft_delete (owned_wallet_at owner scan_id) wallet_deleted))
  wallet-Spares owner scan_id other m t = record {
    wallets =
        select-update_other (owned_wallet_at owner scan_id) (λ r. r.user_id == user_id)
          (wallet_deleted m.now) t.scan_results λ r h. ground (arith, other, h);
    tls = refl;
    usage = refl;
    users = refl;
    plans = refl;
  }

  other_user :
      (owner : Uuid) (u : Option Uuid)
      → (owner == user_id) ≡ false
      → is_user owner u ≡ true
      → is_user user_id u ≡ false
  other_user owner none other h = refl
  other_user owner (some u) other h = ground (arith, other, h)

  pub tls-Spares :
      (owner scan_id : Uuid)
      → (owner == user_id) ≡ false
      → Spares (on_tls_scan_results (soft_delete (user_tls_at owner scan_id) tls_deleted))
  tls-Spares owner scan_id other m t = record {
    wallets = refl;
    tls =
        select-update_other (user_tls_at owner scan_id) (λ r. is_user user_id r.user_id)
          (tls_deleted m.now) t.tls_scan_results
          λ r h. let apart = other_user owner r.user_id other (ground (arith, h)) in (apart, apart);
    usage = refl;
    users = refl;
    plans = refl;
  }
