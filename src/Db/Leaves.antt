-- ===== src/Db/Leaves.antt =====
-- Steps on a connection by what they leave if they answer no error.
use cafe_persistence.Prelude.{
  ◌≡◌, refl, Bool, true, false, if◌then◌else◌, Try, ok, err, Exec, continue, ◌>>=◌, Bool-cases, inl,
  inr,
}
use cafe_persistence.Db.{Error, Moment, Database, IsSerial, statement}

pub absurd_err : {A B : Type 0} {a : A} {e : Error} → err e ≡ ok a → B
absurd_err h = cc

module _ {T : Type 0} (db : Database T) where
  -- From `Pre`, a step that answers leaves `Post` of its answer.
  pub record Leaves {A : Type 0} (Pre : T → Type 0) (m : Exec db.Conn Error A)
      (Post : A → T → Type 0) : Type 0 where
    pub at : (c : db.Conn) (a : A) → Pre (db.seen c) → (m c).0 ≡ ok a → Post a (db.seen (m c).1)

  continue-Leaves :
      {A B : Type 0} (q : Try Error A) (c : db.Conn) (f : A → Exec db.Conn Error B) (b : B)
      (Mid : A → T → Type 0) (Post : B → T → Type 0)
      → ((a : A) → q ≡ ok a → Mid a (db.seen c))
      → ((a : A) → Leaves (Mid a) (f a) Post)
      → (continue q f c).0 ≡ ok b
      → Post b (db.seen (continue q f c).1)
  continue-Leaves (ok a) c f b Mid Post h k e = (k a).at c b (h a refl) e
  continue-Leaves (err x) c f b Mid Post h k e = absurd_err e

  pub bind-Leaves :
      {A B : Type 0} (Pre : T → Type 0) (Mid : A → T → Type 0) (Post : B → T → Type 0)
      (m : Exec db.Conn Error A) (f : A → Exec db.Conn Error B)
      → Leaves Pre m Mid
      → ((a : A) → Leaves (Mid a) (f a) Post)
      → Leaves Pre (m >>= f) Post
  bind-Leaves Pre Mid Post m f h k = record {
    at = λ c b pre e. continue-Leaves (m c).0 (m c).1 f b Mid Post (λ a. h.at c a pre) k e;
  }

  pub if-Leaves :
      {A : Type 0} (b : Bool) (Pre : T → Type 0) (Post : A → T → Type 0)
      (m n : Exec db.Conn Error A)
      → (b ≡ true → Leaves Pre m Post)
      → (b ≡ false → Leaves Pre n Post)
      → Leaves Pre (if b then m else n) Post
  if-Leaves true Pre Post m n h k = h refl
  if-Leaves false Pre Post m n h k = k refl

  pub done-Leaves : (P : T → Type 0) → Leaves P (λ c. (ok tt, c)) (λ u. P)
  done-Leaves P = record { at = λ c a h e. h }

  pub statement-Leaves :
      {A : Type 0} (Pre : T → Type 0) (Post : A → T → Type 0) (f : Moment → T → Try Error A × T)
      → IsSerial db
      → ((m : Moment) (t : T) (a : A) → Pre t → (f m t).0 ≡ ok a → Post a (f m t).1)
      → Leaves Pre (statement db f) Post
  unfolding statement
  statement-Leaves Pre Post f serial h = record {
    at = λ c a pre e. elim (Bool-cases (db.fails c)) [
      | inl down ↦ absurd_err (rw down at e)
      | inr up ↦ rw (up, serial.seen-next) (h (db.clock c) (db.seen c) a pre (rw up at e))
    ];
  }
