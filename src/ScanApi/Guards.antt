-- ===== src/ScanApi/Guards.antt =====
-- The guards at the head of a handler of internal/scanapi, which leave every store alone.
use cafe_persistence.Prelude.{
  ◌≡◌, refl, ◌∙◌, ap, Option, none, some, str_eq, Try, ok, err, continue, ◌>>=◌, Bool-cases, inl,
  inr,
}
use cafe_persistence.Domain.{Uuid}
use cafe_persistence.ScanApi.Text.{trim_space}
use cafe_persistence.ScanApi.Http.{
  Response, HttpRequest, Backend, Session, Handler, found, parse_scan_id_path,
}
use cafe_persistence.ScanApi.Within.{Order, Within}

got : {E A : Type 0} {x y : A} → ◌≡◌ {A = Try E A} (ok x) (ok y) → x ≡ y
got h = cc

not_raised : {E A B : Type 0} {e : E} {a : A} → ◌≡◌ {A = Try E A} (err e) (ok a) → B
not_raised h = cc

module _ (b : Backend) where
  -- the session that a guard leaves
  abbrev pub at_rest : Order b
  at_rest = record { Rel = λ s s'. s' ≡ s; same = λ s. refl; then_also = λ s s' s'' h k. k ∙ h }

  continue_at :
      {A : Type 0} (P : Session b → Try Response Response → Type 0) (q : Try Response A)
      (f : A → Handler b Response) (s s' : Session b)
      → s' ≡ s
      → ((e : Response) → P s (err e))
      → ((a : A) → q ≡ ok a → P (f a s).1 (f a s).0)
      → P (continue q f s').1 (continue q f s').0
  continue_at P (ok a) f s s' same stops goes = rw same (goes a refl)
  continue_at P (err e) f s s' same stops goes = rw same (stops e)

  -- After a guard that leaves the session alone, the rest of the handler decides.
  pub after_guard :
      {A : Type 0} (P : Session b → Try Response Response → Type 0) (m : Handler b A)
      (f : A → Handler b Response) (s : Session b)
      → Within b at_rest m
      → ((e : Response) → P s (err e))
      → ((a : A) → (m s).0 ≡ ok a → P (f a s).1 (f a s).0)
      → P ((m >>= f) s).1 ((m >>= f) s).0
  after_guard P m f s h stops goes = continue_at P (m s).0 f s (m s).1 (h.at s) stops goes

  pub found-some :
      {A : Type 0} (failed : Response) (q : Option A) (s : Session b) (a : A)
      → (found b failed q s).0 ≡ ok a
      → q ≡ some a
  unfolding found
  found-some failed none s a h = not_raised h
  found-some failed (some x) s a h = ap some (got h)

  pub parse_scan_id_path-parse_uuid :
      (r : HttpRequest) (s : Session b) (scan_id : Uuid)
      → (parse_scan_id_path b r s).0 ≡ ok scan_id
      → b.codec.parse_uuid (trim_space r.path_scan_id) ≡ some scan_id
  unfolding parse_scan_id_path
  parse_scan_id_path-parse_uuid r s scan_id h =
      elim (Bool-cases (str_eq (trim_space r.path_scan_id) "")) [
        | inl blank ↦ not_raised (rw blank at h)
        | inr given ↦ found-some _ _ s scan_id (rw given at h)
      ]
