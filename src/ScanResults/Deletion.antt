-- ===== src/ScanResults/Deletion.antt =====
-- An owner deletes a wallet scan, while nobody else writes to the table.
use cafe_persistence.Prelude.{
  ◌≡◌, refl, sym, ◌∙◌, Bool, false, none, List, [], ◌∷◌, arith, ltb, is_some, Try, ok, err,
  Bool-cases, inl, inr,
}
use cafe_persistence.Domain.{Uuid}
use cafe_persistence.Db.{Error, Database, IsSerial, statement}
use cafe_persistence.Db.Table.{first, count, update}
use cafe_persistence.Tables.{Tables}
use cafe_persistence.ScanResults.{
  owned_wallet_at, wallet_deleted, find_owned_wallet_scan_by_id, delete_owned_wallet_scan,
}

first-update_out :
    {R : Type 0} (p : R → Bool) (f : R → R) (rs : List R)
    → ((r : R) → p (f r) ≡ false)
    → (first p (update p f rs) ≡ none) × (ltb 0 (count p rs) ≡ is_some (first p rs))
unfolding first update count
first-update_out p f [] gone = (refl, refl)
first-update_out p f (r ∷ rs) gone = elim (Bool-cases (p r)) [
  | inl here ↦ rw (here, gone r) ((first-update_out p f rs gone).0, ground arith)
  | inr not_here ↦ rw (not_here) (
    rw not_here (first-update_out p f rs gone).0,
    ground (arith, (first-update_out p f rs gone).1),
  )
]

same_answer : {A : Type 0} {a a' : A} → ◌≡◌ {A = Try Error A} (ok a) (ok a') → a ≡ a'
same_answer h = cc

not_answered : {A B : Type 0} {e : Error} {a : A} → ◌≡◌ {A = Try Error A} (err e) (ok a) → B
not_answered h = cc

-- Where DeleteOwnedWalletScan answers without error, it answers whether the owner has such a scan
-- that is not deleted; and from then on FindOwnedWalletScanByID, where it does not fail, finds
-- none.
pub find_owned_wallet_scan_by_id-delete_owned_wallet_scan :
    (db : Database Tables) (serial : IsSerial db) (user_id scan_id : Uuid) (c : db.Conn)
    (deleted : Bool)
    → let (r, c') = delete_owned_wallet_scan db user_id scan_id c in
      r ≡ ok deleted
      → db.fails c' ≡ false
      → (deleted ≡ is_some (first (owned_wallet_at user_id scan_id) (db.seen c).scan_results))
        × ((find_owned_wallet_scan_by_id db user_id scan_id c').0 ≡ ok none)
unfolding delete_owned_wallet_scan find_owned_wallet_scan_by_id statement
find_owned_wallet_scan_by_id-delete_owned_wallet_scan db serial user_id scan_id c deleted h up' =
    elim (Bool-cases (db.fails c)) [
      | inl down ↦ not_answered (rw down at h)
      | inr up ↦
          let out =
            first-update_out (owned_wallet_at user_id scan_id) (wallet_deleted (db.clock c).now)
              (db.seen c).scan_results λ r. refl in
          (
            sym (same_answer (rw up at h)) ∙ out.1,
            rw (up, rw up at up', serial.seen-next, out.0) refl,
          )
    ]
