-- ===== src/WalletTransition/Refines/Written.antt =====
-- The row that a command writes, and where it is found afterwards.
use cafe_persistence.Prelude.{
  ℕ, ◌≡◌, ◌∙◌, true, false, none, some, arith, ◌==◌, str_eq, ok, if◌then◌else◌,
}
use cafe_persistence.Domain.{Uuid, ScanResultEntity}
use cafe_persistence.Domain.Entity.{Codec}
use cafe_persistence.Db.{Moment}
use cafe_persistence.Db.Table.{
  count, first-update, first-update_other, count-pos, first-append_none, first-append_other,
}
use cafe_persistence.Tables.{Tables, wallet_at}
use cafe_persistence.Scan.{running, success, failed}
use cafe_persistence.WalletTransition.{Command, logical, contains, source_scope}
use cafe_persistence.WalletTransition.Guard.{source_scope-contains}
use cafe_persistence.WalletTransition.Rows.{in_scope, overwrite, new_row}
use cafe_persistence.WalletTransition.Spec.{row_at, settled, overwritten, dated, inserted}

-- What the command fixes of the row that it writes.
pub record IsWritten (scan_id : Uuid) (cmd : Command) (new : ScanResultEntity) : Type 0 where
  pub id : new.id ≡ scan_id
  pub live : new.deleted_at ≡ none
  pub owner : new.user_id ≡ cmd.user_id
  pub address : new.address ≡ cmd.address
  pub transition : new.transition_id ≡ some cmd.transition_id
  pub status : new.status ≡ (
      if str_eq cmd.target_state success
      then success
      else (if str_eq cmd.target_state failed then failed else running))

pub new_row-IsWritten :
    (codec : Codec) (scan_id : Uuid) (cmd : Command) (new : ScanResultEntity)
    → new_row codec scan_id cmd ≡ ok new
    → IsWritten scan_id cmd new
unfolding new_row
new_row-IsWritten codec scan_id cmd new h = ground arith

module _ (scan_id : Uuid) (cmd : Command) (new : ScanResultEntity)
    (w : IsWritten scan_id cmd new) where
  overwrite-wallet_at :
      (now : ℕ) (r : ScanResultEntity)
      → wallet_at scan_id r ≡ true
      → wallet_at scan_id (overwrite cmd new now r) ≡ true
  unfolding overwrite
  overwrite-wallet_at now r h = ground (arith, w)

  pub row_at-overwritten :
      (t : Tables) (ent : ScanResultEntity) (m : Moment)
      → row_at scan_id t ≡ some ent
      → contains cmd.source_states (logical ent.status) ≡ true
      → row_at scan_id (overwritten scan_id cmd new m t) ≡ some (overwrite cmd new m.now ent)
  row_at-overwritten t ent m found allowed =
      first-update (wallet_at scan_id) (λ r. source_scope cmd.source_states r.status)
        (overwrite cmd new m.now) t.scan_results ent (overwrite-wallet_at m.now) found
        (source_scope-contains cmd.source_states ent.status ∙ allowed)

  pub in_scope-count :
      (t : Tables) (ent : ScanResultEntity)
      → row_at scan_id t ≡ some ent
      → contains cmd.source_states (logical ent.status) ≡ true
      → (count (in_scope scan_id cmd) t.scan_results == 0) ≡ false
  in_scope-count t ent found allowed =
      count-pos (wallet_at scan_id) (λ r. source_scope cmd.source_states r.status) (λ r. r)
        t.scan_results ent found (source_scope-contains cmd.source_states ent.status ∙ allowed)

  pub row_at-inserted :
      (t : Tables) (m : Moment)
      → row_at scan_id t ≡ none
      → row_at scan_id (inserted new m t) ≡ some (dated new m)
  row_at-inserted t m missing =
      first-append_none (wallet_at scan_id) t.scan_results (dated new m) missing ∙ ground (arith, w)

  row_at-other :
      (r : ScanResultEntity) (j : Uuid)
      → (j == scan_id) ≡ false
      → r.id ≡ scan_id
      → wallet_at j r ≡ false
  row_at-other r j ne e = ground arith

  in_scope-id :
      (now : ℕ) (r : ScanResultEntity)
      → in_scope scan_id cmd r ≡ true
      → (r.id ≡ scan_id) × ((overwrite cmd new now r).id ≡ scan_id)
  unfolding overwrite
  in_scope-id now r h = ground (arith, w)

  -- No other scan is touched.
  pub row_at-overwritten_other :
      (t : Tables) (m : Moment) (j : Uuid)
      → (j == scan_id) ≡ false
      → row_at j (overwritten scan_id cmd new m t) ≡ row_at j t
  row_at-overwritten_other t m j ne =
      first-update_other (in_scope scan_id cmd) (wallet_at j) (overwrite cmd new m.now)
        t.scan_results
        (λ x h.
          let e = in_scope-id m.now x h in
          (row_at-other x j ne e.0, row_at-other (overwrite cmd new m.now x) j ne e.1))

  pub row_at-inserted_other :
      (t : Tables) (m : Moment) (j : Uuid)
      → (j == scan_id) ≡ false
      → row_at j (inserted new m t) ≡ row_at j t
  row_at-inserted_other t m j ne =
      first-append_other (wallet_at j) t.scan_results (dated new m)
        (row_at-other (dated new m) j ne w.id)

pub row_at-settled_other :
    (scan_id : Uuid) (cmd : Command) (j : Uuid) (t : Tables)
    → row_at j (settled scan_id cmd t) ≡ row_at j t
row_at-settled_other scan_id cmd j t = ground arith

pub settled_ledger :
    (scan_id : Uuid) (cmd : Command) (t t' : Tables)
    → t'.scan_usage_events ≡ t.scan_usage_events
    → (settled scan_id cmd t').scan_usage_events ≡ (settled scan_id cmd t).scan_usage_events
settled_ledger scan_id cmd t t' e = ground arith

pub row_at-settled :
    (scan_id : Uuid) (cmd : Command) (t : Tables)
    → row_at scan_id (settled scan_id cmd t) ≡ row_at scan_id t
row_at-settled scan_id cmd t = ground arith
