-- ===== src/Db.antt =====
-- The database as the Go code meets it through gorm: one connection on which statements run.
-- gorm and Postgres are not in the repository; they are the parameter `Database`.
pub mod Table
pub mod Meets
pub mod Scripted
pub mod Ordered
pub mod Preserves
pub mod Leaves
use cafe_persistence.Prelude.{ℕ, ◌≡◌, Bool, if◌then◌else◌, Try, ok, err, Exec}

-- The errors that the modelled code makes or passes on.
pub data Error : Type 0 where
  unavailable duplicate_key record_not_found : Error
  invalid_scan_usage_kind keep_ledger_missing nil_pointer : Error
  decode_failed cache_unavailable invalid_uuid encode_failed : Error
  record_required record_incomplete : Error

-- What `time.Now` and `uuid.New` give while a statement runs.
pub record Moment : Type 0 where
  pub now : ℕ
  pub fresh : ℕ

-- `T` holds the tables. `seen c` are the tables that the next statement on `c` finds: they may hold
-- what other transactions have committed since. `fails c` says whether that statement, or a begin
-- or commit in its place, is answered by an error. `next c t` is the connection after a statement
-- that has left the tables `t`.
pub record Database (T : Type 0) : Type 1 where
  pub Conn : Type 0
  pub seen : Conn → T
  pub clock : Conn → Moment
  pub fails : Conn → Bool
  pub next : Conn → T → Conn
  pub rolled_back : Conn → Conn → Conn

-- The tables are this connection's alone: it finds them as its last statement left them, and a
-- rollback from `c'` to the begin at `c` restores them.
pub record IsSerial {T : Type 0} (db : Database T) : Type 0 where
  pub seen-next : (c : db.Conn) (t : T) → db.seen (db.next c t) ≡ t
  pub seen-rolled_back : (c c' : db.Conn) → db.seen (db.rolled_back c c') ≡ db.seen c

module _ {T : Type 0} (db : Database T) where
  -- A statement, given by what it answers and leaves at a time and on given tables.
  unfoldable pub statement : {A : Type 0} → (Moment → T → Try Error A × T) → Exec db.Conn Error A
  statement f c =
      if db.fails c
      then (err unavailable, db.next c (db.seen c))
      else (let (r, t) = f (db.clock c) (db.seen c) in (r, db.next c t))

  abbrev pub finish : {E A : Type 0} → (A → E) → db.Conn → Try E A → db.Conn → Try E A × db.Conn
  finish on_commit c (ok a) c' =
      if db.fails c'
      then (err (on_commit a), db.rolled_back c c')
      else (ok a, db.next c' (db.seen c'))
  finish on_commit c (err e) c' = (err e, db.rolled_back c c')

  -- db.Transaction: an error of the body rolls back, and so does a commit that fails.
  unfoldable pub transaction : {E A : Type 0} → E → (A → E) → Exec db.Conn E A → Exec db.Conn E A
  transaction on_begin on_commit body c =
      if db.fails c
      then (err on_begin, db.next c (db.seen c))
      else (let (r, c') = body (db.next c (db.seen c)) in finish on_commit c r c')
