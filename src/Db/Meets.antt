-- ===== src/Db/Meets.antt =====
-- Steps on a connection, with what they promise when nobody else writes to the tables.
use cafe_persistence.Prelude.{
  ◌≡◌, refl, ◌∙◌, subst, ◌⊎◌, Bool, true, false, inl, inr, Try, ok, err, Exec, pure, raise, on_err,
  map_err, continue, ◌>>=◌, if◌then◌else◌, Bool-cases,
}
use cafe_persistence.Db.{Moment, Error, Database, IsSerial, statement, transaction, finish}

module _ {T E A : Type 0} where
  abbrev pub Holds : (A → T → Type 0) → Type 0 → Try E A → T → Type 0
  Holds Q X (ok a) t = Q a t
  Holds Q X (err e) t = X

-- Run on the tables `t`, `m` answers a value and leaves tables of which `Q` holds, or it fails and
-- `X` is to blame.
pub record Meets {T E A : Type 0} (db : Database T) (X : Type 0) (t : T) (m : Exec db.Conn E A)
    (Q : A → T → Type 0) : Type 0 where
  pub at : (c : db.Conn) → db.seen c ≡ t → Holds Q X (m c).0 (db.seen (m c).1)

Holds-continue :
    {T : Type 0} (db : Database T) {X E A B : Type 0} {P : A → T → Type 0} {Q : B → T → Type 0}
    (r : Try E A) (c : db.Conn) (f : A → Exec db.Conn E B)
    → Holds P X r (db.seen c)
    → ((a : A) (t' : T) → P a t' → Meets db X t' (f a) Q)
    → Holds Q X (continue r f c).0 (db.seen (continue r f c).1)
Holds-continue db (ok a) c f h k = (k a (db.seen c) h).at c refl
Holds-continue db (err e) c f h k = h

Holds-map_err :
    {T E F A : Type 0} (X : Type 0) (Q : A → T → Type 0) (f : E → F) (r : Try E A) (t' : T)
    → Holds Q X r t'
    → Holds Q X (map_err f r) t'
Holds-map_err X Q f (ok a) t' h = h
Holds-map_err X Q f (err e) t' h = h

Holds-weaken :
    {T E A : Type 0} (X : Type 0) (P Q : A → T → Type 0) (r : Try E A) (t' : T)
    → ((a : A) (t' : T) → P a t' → Q a t')
    → Holds P X r t'
    → Holds Q X r t'
Holds-weaken X P Q (ok a) t' k h = k a t' h
Holds-weaken X P Q (err e) t' k h = h

module _ {T : Type 0} (db : Database T) {X : Type 0} {t : T} where
  pub Meets-pure :
      {E A : Type 0} {Q : A → T → Type 0} (a : A) → Q a t → Meets {E = E} db X t (pure a) Q
  Meets-pure {Q} a h = record { at = λ c e. rw e h }

  pub Meets-raise : {E A : Type 0} {Q : A → T → Type 0} (e : E) → X → Meets db X t (raise e) Q
  Meets-raise e x = record { at = λ c _. x }

  pub Meets-bind :
      {E A B : Type 0} {P : A → T → Type 0} {Q : B → T → Type 0} (m : Exec db.Conn E A)
      (f : A → Exec db.Conn E B)
      → Meets db X t m P
      → ((a : A) (t' : T) → P a t' → Meets db X t' (f a) Q)
      → Meets db X t (m >>= f) Q
  Meets-bind m f h k = record { at = λ c e. Holds-continue db (m c).0 (m c).1 f (h.at c e) k }

  pub Meets-on_err :
      {E F A : Type 0} {Q : A → T → Type 0} (f : E → F) (m : Exec db.Conn E A)
      → Meets db X t m Q
      → Meets db X t (on_err f m) Q
  Meets-on_err {Q} f m h = record {
    at = λ c e. Holds-map_err X Q f (m c).0 (db.seen (m c).1) (h.at c e);
  }

  pub Meets-if :
      {E A : Type 0} {Q : A → T → Type 0} (b : Bool) (m n : Exec db.Conn E A)
      → (b ≡ true → Meets db X t m Q)
      → (b ≡ false → Meets db X t n Q)
      → Meets db X t (if b then m else n) Q
  Meets-if true m n km kn = km refl
  Meets-if false m n km kn = kn refl

  pub Meets-weaken :
      {E A : Type 0} {P Q : A → T → Type 0} (m : Exec db.Conn E A)
      → ((a : A) (t' : T) → P a t' → Q a t')
      → Meets db X t m P
      → Meets db X t m Q
  Meets-weaken {P} {Q} m k h = record {
    at = λ c e. Holds-weaken X P Q (m c).0 (db.seen (m c).1) k (h.at c e);
  }

module _ {T : Type 0} (db : Database T) (serial : IsSerial db) {X : Type 0} {t : T}
    (blame : (c : db.Conn) → db.fails c ≡ true → X) where
  pub Meets-statement :
      {A : Type 0} {Q : A → T → Type 0} (f : Moment → T → Try Error A × T)
      → ((m : Moment) → Holds Q X (f m t).0 (f m t).1)
      → Meets db X t (statement db f) Q
  unfolding statement
  Meets-statement f h = record {
    at = λ c e. elim (Bool-cases (db.fails c)) [
      | inl down ↦ rw down (blame c down)
      | inr up ↦ rw (up, serial.seen-next, e) (h (db.clock c))
    ];
  }

-- What a transaction promises: the value with `Q`, or the tables as they were and `X` to blame.
abbrev pub AllOrNothing : {T E A : Type 0} → (A → T → Type 0) → Type 0 → T → Try E A → T → Type 0
AllOrNothing Q X t (ok a) t' = Q a t'
AllOrNothing Q X t (err e) t' = X × (t' ≡ t)

module _ {T : Type 0} (db : Database T) (serial : IsSerial db) {X : Type 0} {t : T}
    (blame : (c : db.Conn) → db.fails c ≡ true → X) where
  finish-AllOrNothing :
      {E A : Type 0} (Q : A → T → Type 0) (on_commit : A → E) (c c' : db.Conn) (r : Try E A)
      → db.seen c ≡ t
      → Holds Q X r (db.seen c')
      → let (r', c'') = finish db on_commit c r c' in AllOrNothing Q X t r' (db.seen c'')
  finish-AllOrNothing Q on_commit c c' (ok a) e h = elim (Bool-cases (db.fails c')) [
    | inl down ↦ rw (down, serial.seen-rolled_back) (blame c' down, e)
    | inr up ↦ rw (up, serial.seen-next) h
  ]
  finish-AllOrNothing Q on_commit c c' (err x) e h = (h, serial.seen-rolled_back c c' ∙ e)

  pub transaction-AllOrNothing :
      {E A : Type 0} (Q : A → T → Type 0) (on_begin : E) (on_commit : A → E)
      (body : Exec db.Conn E A) (c : db.Conn)
      → db.seen c ≡ t
      → Meets db X t body Q
      → let (r, c') = transaction db on_begin on_commit body c in AllOrNothing Q X t r (db.seen c')
  unfolding transaction
  transaction-AllOrNothing Q on_begin on_commit body c e h = elim (Bool-cases (db.fails c)) [
    | inl down ↦ rw down (blame c down, serial.seen-next c (db.seen c) ∙ e)
    | inr up ↦
        let c' = db.next c (db.seen c) in
        rw up (
          finish-AllOrNothing Q on_commit c (body c').1 (body c').0 e
            (h.at c' (serial.seen-next c (db.seen c) ∙ e)))
  ]

module _ {T : Type 0} (db : Database T) (serial : IsSerial db) {X : Type 0} {t : T}
    (blame : (c : db.Conn) → db.fails c ≡ true → X) where
  -- A statement that only reads.
  pub read-AllOrNothing :
      {A : Type 0} (f : Moment → T → Try Error A × T) (v : A) (c : db.Conn)
      → db.seen c ≡ t
      → ((m : Moment) → f m t ≡ (ok v, t))
      → let (r, c') = statement db f c in
        AllOrNothing (λ a t'. (a ≡ v) × (t' ≡ t)) X t r (db.seen c')
  unfolding statement
  read-AllOrNothing f v c e same = elim (Bool-cases (db.fails c)) [
    | inl down ↦ rw down (blame c down, serial.seen-next c (db.seen c) ∙ e)
    | inr up ↦ rw (up, serial.seen-next, e, same) (refl, refl)
  ]

module _ {T E A B : Type 0} (db : Database T) (X : Type 0) (t : T) (v : A) (Q : B → T → Type 0)
    (f : A → Exec db.Conn E B) where
  continue-AllOrNothing :
      (r : Try E A) (c : db.Conn)
      → AllOrNothing (λ a t'. (a ≡ v) × (t' ≡ t)) X t r (db.seen c)
      → ((c' : db.Conn) → db.seen c' ≡ t → AllOrNothing Q X t (f v c').0 (db.seen (f v c').1))
      → AllOrNothing Q X t (continue r f c).0 (db.seen (continue r f c).1)
  continue-AllOrNothing (ok a) c h k = rw h.0 (k c h.1)
  continue-AllOrNothing (err e) c h k = h

  -- What follows a step that only reads.
  pub bind-AllOrNothing :
      (m : Exec db.Conn E A) (c : db.Conn)
      → AllOrNothing (λ a t'. (a ≡ v) × (t' ≡ t)) X t (m c).0 (db.seen (m c).1)
      → ((c' : db.Conn) → db.seen c' ≡ t → AllOrNothing Q X t (f v c').0 (db.seen (f v c').1))
      → AllOrNothing Q X t ((m >>= f) c).0 (db.seen ((m >>= f) c).1)
  bind-AllOrNothing m c h k = continue-AllOrNothing (m c).0 (m c).1 h k

module _ {T E A : Type 0} (Q : A → T → Type 0) (X : Type 0) (t t' : T) where
  pub answered : (r : Try E A) (a : A) → r ≡ ok a → AllOrNothing Q X t r t' → Q a t'
  answered r a e h = subst (λ r. AllOrNothing Q X t r t') e h

  pub committed_or_same : (r : Try E A) → AllOrNothing Q X t r t' → ((a : A) × Q a t') ⊎ (t' ≡ t)
  committed_or_same (ok a) h = inl (a, h)
  committed_or_same (err e) h = inr h.1

module _ {T E A : Type 0} (P Q : A → T → Type 0) (X : Type 0) (t : T) where
  pub AllOrNothing-weaken :
      (r : Try E A) (t' : T)
      → ((a : A) → P a t' → Q a t')
      → AllOrNothing P X t r t'
      → AllOrNothing Q X t r t'
  AllOrNothing-weaken (ok a) t' k h = k a h
  AllOrNothing-weaken (err e) t' k h = h
