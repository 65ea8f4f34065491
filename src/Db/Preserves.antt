-- ===== src/Db/Preserves.antt =====
-- Steps on a connection that keep a property of the tables, whatever they answer.
use cafe_persistence.Prelude.{
  ◌≡◌, refl, Bool, true, false, if◌then◌else◌, Try, ok, err, Exec, on_err, continue, ◌>>=◌,
  Bool-cases, inl, inr,
}
use cafe_persistence.Db.{Error, Moment, Database, IsSerial, statement, finish, transaction}

module _ {T : Type 0} (db : Database T) (Inv : T → Type 0) where
  pub record Preserves {E A : Type 0} (m : Exec db.Conn E A) : Type 0 where
    pub at : (c : db.Conn) → Inv (db.seen c) → Inv (db.seen (m c).1)

  pub pure-Preserves : {E A : Type 0} (q : Try E A) → Preserves (λ c. (q, c))
  pure-Preserves q = record { at = λ c h. h }

  continue-Inv :
      {E A B : Type 0} (q : Try E A) (c : db.Conn) (f : A → Exec db.Conn E B)
      → Inv (db.seen c)
      → ((a : A) → Preserves (f a))
      → Inv (db.seen (continue q f c).1)
  continue-Inv (ok a) c f h k = (k a).at c h
  continue-Inv (err e) c f h k = h

  pub bind-Preserves :
      {E A B : Type 0} (m : Exec db.Conn E A) {f : A → Exec db.Conn E B}
      → Preserves m
      → ((a : A) → Preserves (f a))
      → Preserves (m >>= f)
  bind-Preserves m {f} h k = record { at = λ c i. continue-Inv (m c).0 (m c).1 f (h.at c i) k }

  pub on_err-Preserves :
      {E F A : Type 0} (g : E → F) (m : Exec db.Conn E A) → Preserves m → Preserves (on_err g m)
  on_err-Preserves g m h = record { at = h.at }

  pub if-Preserves :
      {E A : Type 0} (b : Bool) (m n : Exec db.Conn E A)
      → Preserves m
      → Preserves n
      → Preserves (if b then m else n)
  if-Preserves true m n h k = h
  if-Preserves false m n h k = k

  pub statement-Preserves :
      {A : Type 0} (f : Moment → T → Try Error A × T)
      → IsSerial db
      → ((m : Moment) (t : T) → Inv t → Inv (f m t).1)
      → Preserves (statement db f)
  unfolding statement
  statement-Preserves f serial keep = record {
    at = λ c h. elim (Bool-cases (db.fails c)) [
      | inl down ↦ rw (down, serial.seen-next) h
      | inr up ↦ rw (up, serial.seen-next) (keep (db.clock c) (db.seen c) h)
    ];
  }

  answered-Inv :
      {E A B : Type 0} (q : Try E A) (c : db.Conn) (f : A → Exec db.Conn E B)
      → Inv (db.seen c)
      → ((a : A) → q ≡ ok a → Preserves (f a))
      → Inv (db.seen (continue q f c).1)
  answered-Inv (ok a) c f h k = (k a refl).at c h
  answered-Inv (err e) c f h k = h

  -- What follows a step may use a fact of its answer.
  pub answer-Preserves :
      {E A B : Type 0} (Post : A → Type 0) (m : Exec db.Conn E A) {f : A → Exec db.Conn E B}
      → Preserves m
      → ((c : db.Conn) (a : A) → Inv (db.seen c) → (m c).0 ≡ ok a → Post a)
      → ((a : A) → Post a → Preserves (f a))
      → Preserves (m >>= f)
  answer-Preserves Post m {f} h post k = record {
    at = λ c i. answered-Inv (m c).0 (m c).1 f (h.at c i) λ a e. k a (post c a i e);
  }

  finish-Inv :
      {E A : Type 0} (on_commit : A → E) (serial : IsSerial db) (c c' : db.Conn) (q : Try E A)
      → Inv (db.seen c)
      → Inv (db.seen c')
      → Inv (db.seen (finish db on_commit c q c').1)
  finish-Inv on_commit serial c c' (ok a) h k = elim (Bool-cases (db.fails c')) [
    | inl down ↦ rw (down, serial.seen-rolled_back c c') h
    | inr up ↦ rw (up, serial.seen-next) k
  ]
  finish-Inv on_commit serial c c' (err e) h k = rw (serial.seen-rolled_back c c') h

  pub transaction-Preserves :
      {E A : Type 0} (on_begin : E) (on_commit : A → E) (body : Exec db.Conn E A)
      → IsSerial db
      → Preserves body
      → Preserves (transaction db on_begin on_commit body)
  unfolding transaction
  transaction-Preserves on_begin on_commit body serial keep = record {
    at = λ c h. elim (Bool-cases (db.fails c)) [
      | inl down ↦ rw (down, serial.seen-next) h
      | inr up ↦ rw up (finish-Inv on_commit serial c _ _ h (keep.at _ (rw serial.seen-next h)))
    ];
  }
