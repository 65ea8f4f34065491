-- ===== src/ScanApi/Within.antt =====
-- Handlers that stay within a relation between the sessions before and after.
use cafe_persistence.Prelude.{
  ◌≡◌, refl, ap, ◌∙◌, Bool, true, false, Option, none, some, if◌then◌else◌, Try, ok, err, pure,
  continue, ◌>>=◌, str_eq, ◌==◌, Bool-cases, Option-cases, inl, inr,
}
use cafe_persistence.Domain.{Uuid, nil_uuid}
use cafe_persistence.ScanApi.Text.{trim_space}
use cafe_persistence.ScanApi.Http.{
  write_bad_request, Response, HttpRequest, Backend, Session, Handler, guard, found,
  require_user_id, parse_scan_id_path,
}

-- a preorder on sessions
pub record Order (b : Backend) : Type 1 where
  pub Rel : Session b → Session b → Type 0
  pub same : (s : Session b) → Rel s s
  pub then_also : (s s' s'' : Session b) → Rel s s' → Rel s' s'' → Rel s s''

-- What a handler leaves is related to what it found.
pub record Within (b : Backend) (o : Order b) {A : Type 0} (m : Handler b A) : Type 0 where
  pub at : (s : Session b) → o.Rel s (m s).1

module _ (b : Backend) (o : Order b) where
  continue-Rel :
      {A B : Type 0} (s s' : Session b) (q : Try Response A) (f : A → Handler b B)
      → o.Rel s s'
      → ((a : A) → q ≡ ok a → Within b o (f a))
      → o.Rel s (continue q f s').1
  continue-Rel s s' (ok a) f h k = o.then_also s s' (f a s').1 h ((k a refl).at s')
  continue-Rel s s' (err e) f h k = h

  pub pure-Within : {A : Type 0} (a : A) → Within b o (pure a)
  pure-Within a = record { at = o.same }

  -- What follows a handler may use its answer.
  pub bind-Within :
      {A B : Type 0} (m : Handler b A) {f : A → Handler b B}
      → Within b o m
      → ((a : A) → ((s : Session b) × ((m s).0 ≡ ok a)) → Within b o (f a))
      → Within b o (m >>= f)
  bind-Within m {f} h k = record {
    at = λ s. continue-Rel s (m s).1 (m s).0 f (h.at s) λ a e. k a (s, e);
  }

  pub guard-Within : (holds : Bool) (failed : Response) → Within b o (guard b holds failed)
  unfolding guard
  guard-Within true failed = record { at = o.same }
  guard-Within false failed = record { at = o.same }

  pub found-Within : {A : Type 0} (failed : Response) (q : Option A) → Within b o (found b failed q)
  unfolding found
  found-Within failed none = record { at = o.same }
  found-Within failed (some a) = record { at = o.same }

  pub if-Within :
      {A : Type 0} (c : Bool) {m n : Handler b A}
      → Within b o m
      → Within b o n
      → Within b o (if c then m else n)
  if-Within true h k = h
  if-Within false h k = k

  pub parse_scan_id_path-Within : (r : HttpRequest) → Within b o (parse_scan_id_path b r)
  unfolding parse_scan_id_path
  parse_scan_id_path-Within r =
      if-Within (str_eq (trim_space r.path_scan_id) "") (record { at = o.same })
        (found-Within (write_bad_request r "scan_id must be a UUID")
          (b.codec.parse_uuid (trim_space r.path_scan_id)))

  pub require_user_id-Within : (r : HttpRequest) → Within b o (require_user_id b r)
  unfolding require_user_id
  require_user_id-Within r = record {
    at = λ s. elim (Bool-cases (str_eq (trim_space r.header_user_id) "")) [
      | inl blank ↦ rw blank (o.same s)
      | inr text ↦ elim (Option-cases (b.codec.parse_uuid (trim_space r.header_user_id))) [
        | inl bad ↦ rw (text, bad) (o.same s)
        | inr user ↦ elim (Bool-cases (user.0 == nil_uuid)) [
          | inl nil ↦ rw (text, user.1, nil) (o.same s)
          | inr id ↦ rw (text, user.1, id) (o.same s)
        ]
      ]
    ];
  }

not_answered : {A B : Type 0} {e : Response} {a : A} → ◌≡◌ {A = Try Response A} (err e) (ok a) → B
not_answered h = cc

same_answer : {A : Type 0} {a a' : A} → ◌≡◌ {A = Try Response A} (ok a) (ok a') → a ≡ a'
same_answer h = cc

-- The user of a request that is let through is the one that its header names.
pub require_user_id-parse_uuid :
    (b : Backend) (r : HttpRequest) (s : Session b) (u : Uuid)
    → (require_user_id b r s).0 ≡ ok u
    → b.codec.parse_uuid (trim_space r.header_user_id) ≡ some u
unfolding require_user_id
require_user_id-parse_uuid b r s u h = elim (Bool-cases (str_eq (trim_space r.header_user_id) "")) [
  | inl blank ↦ not_answered (rw blank at h)
  | inr text ↦ elim (Option-cases (b.codec.parse_uuid (trim_space r.header_user_id))) [
    | inl bad ↦ not_answered (rw (text, bad) at h)
    | inr user ↦ elim (Bool-cases (user.0 == nil_uuid)) [
      | inl nil ↦ not_answered (rw (text, user.1, nil) at h)
      | inr id ↦ user.1 ∙ ap some (same_answer (rw (text, user.1, id) at h))
    ]
  ]
]

-- The user that the guard on a store lets through.
pub guarded_user :
    (b : Backend) (holds : Bool) (failed : Response) (q : Try Response Uuid) (s : Session b)
    (u : Uuid)
    → (continue q (λ v. guard b holds failed >>= λ h. pure v) s).0 ≡ ok u
    → q ≡ ok u
unfolding guard
guarded_user b true failed (ok v) s u h = h
guarded_user b false failed (ok v) s u h = not_answered h
guarded_user b holds failed (err e) s u h = not_answered h
