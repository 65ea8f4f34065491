-- ===== src/Connections/Masked.antt =====
-- What maskDSN of pkg/postgres/postgres.go leaves of a DSN that New made.
use Prim.Native.Char.{Char}
use Prim.Native.String.{◌++◌}
use Prim.Native.String.append
use text.Mathlib.TextLemmas.{append_assoc}
use cafe_persistence.Prelude.{
  ℕ, zero, suc, String, ◌≡◌, refl, sym, subst, ◌∙◌, ap, true, false, ◌&&◌, Option, none, some,
  arith, str_eq, str_eq_iff, Bool-cases, inl, inr,
}
use cafe_persistence.ScanApi.Text.{drop, has_prefix}
use cafe_persistence.Connections.{
  PostgresConfig, dsn_head, dsn_tail, dsn, from_space, prepend, mask_from, or_stars, mask_dsn,
}

-- a text with no space in it
abbrev pub NoSpace : String → Type 0
NoSpace String.[] = Unit
NoSpace (String.◌∷◌ c s) = (str_eq (String.◌∷◌ c String.[]) " " ≡ false) × NoSpace s

abbrev IsSpace : Char → Type 0
IsSpace c = str_eq (String.◌∷◌ c String.[]) " " ≡ true

from_space-append :
    (s : String) (c : Char) (t : String)
    → NoSpace s
    → IsSpace c
    → from_space (s ++ String.◌∷◌ c t) ≡ String.◌∷◌ c t
unfolding from_space
from_space-append String.[] c t h space = rw (append.nil (String.◌∷◌ c t), space) refl
from_space-append (String.◌∷◌ d s) c t h space =
    rw (append.cons d s (String.◌∷◌ c t), h.0) (from_space-append s c t h.1 space)

has_prefix-append : (p t : String) → has_prefix p (p ++ t) ≡ true
has_prefix-append String.[] t = refl
has_prefix-append (String.◌∷◌ c p) t = rw (append.cons c p t) (
    ground
      (arith, str_eq_iff (String.◌∷◌ c String.[]) (String.◌∷◌ c String.[]), has_prefix-append p t))

-- the count of characters
abbrev size : String → ℕ
size String.[] = zero
size (String.◌∷◌ c s) = suc (size s)

drop-append : (p t : String) → drop (size p) (p ++ t) ≡ t
drop-append String.[] t = append.nil t
drop-append (String.◌∷◌ c p) t = rw (append.cons c p t) (drop-append p t)

apart : (x y : String) → str_eq x " " ≡ false → str_eq y " " ≡ true → str_eq x y ≡ false
apart x y h k = subst (λ z. str_eq x z ≡ false) (sym ((str_eq_iff y " ").0 k)) h

-- A text without a space does not begin across one.
has_prefix-cut :
    (p s : String) (c : Char) (t : String)
    → NoSpace p
    → IsSpace c
    → has_prefix p (s ++ String.◌∷◌ c t) ≡ has_prefix p s
has_prefix-cut String.[] s c t h space = refl
has_prefix-cut (String.◌∷◌ d p) String.[] c t h space =
    rw
      (
        append.nil (String.◌∷◌ c t),
        apart (String.◌∷◌ d String.[]) (String.◌∷◌ c String.[]) h.0 space,
      )
      refl
has_prefix-cut (String.◌∷◌ d p) (String.◌∷◌ e s) c t h space =
    rw (append.cons e s (String.◌∷◌ c t)) (
      ap (λ b. str_eq (String.◌∷◌ d String.[]) (String.◌∷◌ e String.[]) && b)
        (has_prefix-cut p s c t h.1 space))

-- `s`, and then what is found
abbrev after : String → Option String → Option String
after s none = none
after s (some t) = some (s ++ t)

after-nil : (q : Option String) → q ≡ after String.[] q
after-nil none = refl
after-nil (some t) = ap some (sym (append.nil t))

after-cons :
    (c : Char) (s : String) (q : Option String) → prepend c (after s q) ≡ after (String.◌∷◌ c s) q
after-cons c s none = refl
after-cons c s (some t) = ap some (sym (append.cons c s t))

password_has_none : NoSpace "password="
password_has_none = (refl, (refl, (refl, (refl, (refl, (refl, (refl, (refl, (refl, tt)))))))))

-- where nothing is masked
NotMasked : Char → String → Type 0
NotMasked c s = (has_prefix "password=" (String.◌∷◌ c s) ≡ false) × (mask_from s ≡ none)

some_none : {A : Type 0} {t : String} → ◌≡◌ {A = Option String} (some t) none → A
some_none h = cc

prepend-none : (c : Char) (q : Option String) → prepend c q ≡ none → q ≡ none
prepend-none c none h = refl
prepend-none c (some t) h = some_none h

not_masked : (c : Char) (s : String) → mask_from (String.◌∷◌ c s) ≡ none → NotMasked c s
unfolding mask_from NotMasked
not_masked c s h = elim (Bool-cases (has_prefix "password=" (String.◌∷◌ c s))) [
  | inl masked ↦ some_none (rw masked at h)
  | inr free ↦ (free, prepend-none c (mask_from s) (rw free at h))
]

-- A text in which nothing is masked stays, and what follows it from a space on is masked alone.
mask_from-append :
    (s : String) (c : Char) (t : String)
    → IsSpace c
    → mask_from s ≡ none
    → mask_from (s ++ String.◌∷◌ c t) ≡ after s (mask_from (String.◌∷◌ c t))
unfolding mask_from NotMasked
mask_from-append String.[] c t space h = rw (append.nil (String.◌∷◌ c t)) (after-nil _)
mask_from-append (String.◌∷◌ d s) c t space h =
    let (free, rest) = not_masked d s h in
    let uncut = has_prefix-cut "password=" (String.◌∷◌ d s) c t password_has_none space in
    rw (append.cons d s (String.◌∷◌ c t), rw (append.cons d s (String.◌∷◌ c t)) at uncut, free)
      (ap (prepend d) (mask_from-append s c t space rest) ∙ after-cons d s _)

found_at :
    (x : String) (c : Char) (s : String)
    → String.◌∷◌ c s ≡ x
    → has_prefix "password=" x ≡ true
    → mask_from x ≡ some ("password=***" ++ from_space (drop 9 x))
unfolding mask_from
found_at x c s e h =
    subst
      (λ y.
        has_prefix "password=" y ≡ true
        → mask_from y ≡ some ("password=***" ++ from_space (drop 9 y)))
      e (λ k. rw k refl) h

mask_from-password :
    (password : String) (c : Char) (tail : String)
    → NoSpace password
    → IsSpace c
    → mask_from ("password=" ++ (password ++ String.◌∷◌ c tail))
      ≡ some ("password=***" ++ String.◌∷◌ c tail)
mask_from-password password c tail h space =
    let y = password ++ String.◌∷◌ c tail in
    found_at ("password=" ++ y) "p" ("assword=" ++ y) (sym (append.cons "p" "assword=" y))
      (has_prefix-append "password=" y)
    ∙ ap (λ x. some ("password=***" ++ x))
        (ap from_space (drop-append "password=" y) ∙ from_space-append password c tail h space)

-- a DSN by its parts
abbrev parts : String → String → String → String
parts head password rest =
    head ++ String.◌∷◌ " " ("password=" ++ (password ++ String.◌∷◌ " " ("dbname=" ++ rest)))

dsn-parts :
    (head password rest : String)
    → head ++ (" password=" ++ (password ++ (" dbname=" ++ rest))) ≡ parts head password rest
dsn-parts head password rest =
    ap (λ x. head ++ x)
      (append.cons " " "password=" (password ++ (" dbname=" ++ rest))
        ∙ ap (λ x. String.◌∷◌ " " ("password=" ++ (password ++ x)))
            (append.cons " " "dbname=" rest))

mask_from-parts :
    (head password rest : String)
    → NoSpace password
    → mask_from head ≡ none
    → mask_from (parts head password rest) ≡ some (parts head "***" rest)
unfolding mask_from
mask_from-parts head password rest h free =
    let tail = "dbname=" ++ rest in
    mask_from-append head " " _ refl free
    ∙ ap (λ q. after head (prepend " " q)) (mask_from-password password " " tail h refl)
    ∙ ap (λ x. some (head ++ String.◌∷◌ " " x))
        (append_assoc "password=" "***" (String.◌∷◌ " " tail))

-- The DSN that is logged is the one of the password ***, where the password has no space and
-- "password=" is not in the host, the port or the user before it.
pub mask_dsn-dsn :
    (c : PostgresConfig)
    → NoSpace c.password
    → mask_from (dsn_head c) ≡ none
    → mask_dsn (dsn c) ≡ dsn (record c { password = "***" })
unfolding mask_dsn dsn dsn_head dsn_tail
mask_dsn-dsn c no_space head =
    let rest = c.dbname ++ (" sslmode=" ++ c.sslmode) in
    ap mask_dsn (dsn-parts (dsn_head c) c.password rest)
    ∙ ap or_stars (mask_from-parts (dsn_head c) c.password rest no_space head)
    ∙ sym (dsn-parts (dsn_head c) "***" rest)
