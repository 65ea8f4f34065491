-- ===== src/ScanResults/Paging.antt =====
-- A client that walks the pages of a list by limit and offset while nobody writes.
use cafe_persistence.Prelude.{
  true, ℕ, zero, suc, ◌+◌, ◌*◌, ◌≤◌, String, ◌≡◌, refl, sym, ◌∙◌, ap, List, [], ◌++◌, arith, Exec,
  pure, ◌>>=◌,
}
use cafe_persistence.Domain.{Uuid, ScanResultEntity}
use cafe_persistence.Db.{Error, Database, IsSerial, statement}
use cafe_persistence.Db.Meets.{
  AllOrNothing, read-AllOrNothing, bind-AllOrNothing, AllOrNothing-weaken,
}
use cafe_persistence.Db.Table.{count}
use cafe_persistence.Db.Ordered.{
  select, skip, take, IsNewestFirst, take-skip, skip_add, take_all, length-select,
  length-newest_first, newest_first-Perm, newest_first-IsNewestFirst,
}
use cafe_persistence.Tables.{Tables, on_scan_results}
use cafe_persistence.ScanResults.{
  page_of, count_rows, TextCase, listed_wallet, wallets_newest_first,
  list_owner_wallet_scans_discovery_v1,
}
use mathlib.Core.List.{Perm}

zero_times : (limit : ℕ) → 0 ≡ 0 * limit
zero_times limit = omega arith

no_rows : {R : Type 0} (limit : ℕ) (rs : List R) → [] ≡ take (0 * limit) rs
unfolding take
no_rows limit rs = ap (λ k. take k rs) (zero_times limit)

module _ (text : TextCase) (db : Database Tables) (user_id : Uuid) (address : String)
    (limit : ℕ) where
  -- the rows of `n` pages from `offset` on
  abbrev pub pages : ℕ → ℕ → Exec db.Conn Error (List ScanResultEntity)
  pages zero offset = pure []
  pages (suc n) offset = do
    page ← list_owner_wallet_scans_discovery_v1 text db user_id address limit offset
    rest ← pages n (offset + limit)
    pure (page.0 ++ rest)

  abbrev all : Tables → List ScanResultEntity
  all t = wallets_newest_first (select (listed_wallet text user_id address) t.scan_results)

  module _ (serial : IsSerial db) {X : Type 0} (blame : (c : db.Conn) → db.fails c ≡ true → X)
      (t : Tables) where
    abbrev page_at : ℕ → List ScanResultEntity × ℕ
    page_at offset = (
      take limit (skip offset (all t)),
      count (listed_wallet text user_id address) t.scan_results,
    )

    abbrev Answers : {A : Type 0} → A → A → Tables → Type 0
    Answers a b t' = (b ≡ a) × (t' ≡ t)

    abbrev total_statement : Exec db.Conn Error ℕ
    total_statement =
        statement db (on_scan_results (count_rows (listed_wallet text user_id address)))

    abbrev rows_statement : ℕ → Exec db.Conn Error (List ScanResultEntity)
    rows_statement offset = statement db (
        on_scan_results
          (page_of (listed_wallet text user_id address) wallets_newest_first limit offset))

    list-page :
        (offset : ℕ) (c : db.Conn)
        → db.seen c ≡ t
        → let (r, c') =
            list_owner_wallet_scans_discovery_v1 text db user_id address limit offset c in
          AllOrNothing (Answers (page_at offset)) X t r (db.seen c')
    unfolding list_owner_wallet_scans_discovery_v1
    list-page offset c e =
        bind-AllOrNothing db X t (count (listed_wallet text user_id address) t.scan_results)
          (Answers (page_at offset)) (λ total. rows_statement offset >>= λ rows. pure (rows, total))
          total_statement c
          (read-AllOrNothing db serial blame
            (on_scan_results (count_rows (listed_wallet text user_id address))) _ c e λ m. refl)
          λ c₁ e₁.
            bind-AllOrNothing db X t (page_at offset).0 (Answers (page_at offset))
              (λ rows. pure (rows, (page_at offset).1)) (rows_statement offset) c₁
              (read-AllOrNothing db serial blame
                (on_scan_results
                  (page_of (listed_wallet text user_id address) wallets_newest_first limit offset))
                _ c₁ e₁ λ m. refl)
              λ c₂ e₂. (refl, e₂)

    rows_from :
        (offset n : ℕ)
        → (page_at offset).0 ++ take (n * limit) (skip (offset + limit) (all t))
          ≡ take (suc n * limit) (skip offset (all t))
    rows_from offset n =
        ap (λ rs. take limit (skip offset (all t)) ++ take (n * limit) rs)
          (sym (skip_add offset limit (all t)))
        ∙ take-skip limit (n * limit) (skip offset (all t))
        ∙ ap (λ k. take k (skip offset (all t))) (omega arith)

    pages-take :
        (n offset : ℕ) (c : db.Conn)
        → db.seen c ≡ t
        → let (r, c') = pages n offset c in
          AllOrNothing (Answers (take (n * limit) (skip offset (all t)))) X t r (db.seen c')
    pages-take zero offset c e = (no_rows limit _, e)
    pages-take (suc n) offset c e =
        bind-AllOrNothing db X t (page_at offset)
          (Answers (take (suc n * limit) (skip offset (all t))))
          (λ page. pages n (offset + limit) >>= λ rest. pure (page.0 ++ rest))
          (list_owner_wallet_scans_discovery_v1 text db user_id address limit offset) c
          (list-page offset c e)
          λ c₁ e₁.
            bind-AllOrNothing db X t (take (n * limit) (skip (offset + limit) (all t)))
              (Answers (take (suc n * limit) (skip offset (all t))))
              (λ rest. pure ((page_at offset).0 ++ rest)) (pages n (offset + limit)) c₁
              (pages-take n (offset + limit) c₁ e₁) λ c₂ e₂. (rows_from offset n, e₂)

    complete :
        (n : ℕ)
        → count (listed_wallet text user_id address) t.scan_results ≤ n * limit
        → Perm
            (take (n * limit) (skip 0 (all t)))
            (select (listed_wallet text user_id address) t.scan_results)
          × IsNewestFirst (λ r. r.created_at) (λ r. r.id) (take (n * limit) (skip 0 (all t)))
    unfolding skip
    complete n enough =
        let mine = select (listed_wallet text user_id address) t.scan_results in
        let counted = length-select (listed_wallet text user_id address) t.scan_results in
        let sorted = length-newest_first (λ r. r.created_at) (λ r. r.id) mine in
        rw (take_all (n * limit) (all t) (omega (arith, enough, counted, sorted)))
          (newest_first-Perm _ _ mine, newest_first-IsNewestFirst _ _ mine)

    -- Let nobody write to the tables while a client asks for pages of `limit` rows of an owner's
    -- wallet scans, of one address or of all, at the offsets 0, limit, 2 * limit and so on, as many
    -- as the answered total asks for. Then the client has every matching row that is not deleted,
    -- each once, the newest first, and no table has changed; or a statement has failed and no table
    -- has changed.
    pub list_owner_wallet_scans_discovery_v1-pages :
        (n : ℕ) (c : db.Conn)
        → db.seen c ≡ t
        → count (listed_wallet text user_id address) t.scan_results ≤ n * limit
        → let (r, c') = pages n 0 c in
          AllOrNothing
            (λ rows t'.
              Perm rows (select (listed_wallet text user_id address) t.scan_results)
              × IsNewestFirst (λ r. r.created_at) (λ r. r.id) rows
              × (t' ≡ t))
            X
            t
            r
            (db.seen c')
    list_owner_wallet_scans_discovery_v1-pages n c e enough =
        AllOrNothing-weaken (Answers (take (n * limit) (skip 0 (all t)))) _ X t (pages n 0 c).0
          (db.seen (pages n 0 c).1)
          (λ rows h. (rw h.0 (complete n enough).0, rw h.0 (complete n enough).1, h.1))
          (pages-take n 0 c e)
