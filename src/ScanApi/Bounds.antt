-- ===== src/ScanApi/Bounds.antt =====
-- The window of a list, and the bearer token.
use cafe_persistence.Prelude.{
  ℕ, zero, suc, ◌+◌, ◌-◌, ◌≤◌, String, ◌≡◌, ◌≢◌, refl, sym, ap, ◌∙◌, ◌⊎◌, Bool, true, false, List,
  [], ◌∷◌, arith, ltb, leb, str_eq, str_eq_iff, ℤ, pos, negsuc, length, Bool-cases, inl, inr, err,
}
use cafe_persistence.Db.Ordered.{skip, take, take_all}
use cafe_persistence.Domain.{ScanResultEntity}
use cafe_persistence.ScanApi.Text.{drop, has_prefix, trim_space, to_lower}
use cafe_persistence.ScanApi.Http.{Response, HttpRequest, Backend, Session, Handler}
use cafe_persistence.ScanApi.Query.{paginate_wallet_scan_entities, parse_pagination, clamp_limit}
use cafe_persistence.ScanApi.Serve.{is_authorized, service_auth_middleware, refused}

skip_past : {R : Type 0} (n : ℕ) (rows : List R) → length rows ≤ n → skip n rows ≡ []
unfolding skip
skip_past zero [] h = refl
skip_past zero (r ∷ rs) h = absurd (omega (arith, h))
skip_past (suc n) [] h = refl
skip_past (suc n) (r ∷ rs) h = skip_past n rs (omega (arith, h))

length-skip : {R : Type 0} (n : ℕ) (rows : List R) → length (skip n rows) ≡ length rows - n
unfolding skip
length-skip zero rows = omega arith
length-skip (suc n) [] = omega arith
length-skip (suc n) (r ∷ rs) = ground (arith, length-skip n rs)

-- a limit that reaches past the end
take_enough :
    {R : Type 0} (n m : ℕ) (rows : List R)
    → length rows ≤ n
    → length rows ≤ m
    → take n rows ≡ take m rows
take_enough n m rows h k = take_all n rows h ∙ sym (take_all m rows k)

plus_minus : (n m : ℕ) → n + m - n ≡ m
plus_minus n m = omega arith

paginate-take :
    {R : Type 0} (rows : List R) (limit offset : ℕ)
    → paginate_wallet_scan_entities rows limit offset ≡ take limit (skip offset rows)
unfolding paginate_wallet_scan_entities
paginate-take rows limit offset = elim (Bool-cases (leb (length rows) offset)) [
  | inl past ↦
      rw (past, skip_past offset rows (ground (arith, past)))
        (sym (take_all limit [] (omega arith)))
  | inr within ↦ elim (Bool-cases (ltb (length rows) (offset + limit))) [
    | inl over ↦
        rw (within, over)
          (take_enough _ limit (skip offset rows)
            (ground (arith, length-skip offset rows, over, within))
            (ground (arith, length-skip offset rows, over, within)))
    | inr fits ↦ rw (within, fits) (ap (λ n. take n (skip offset rows)) (plus_minus offset limit))
  ]
]

clamped : (b : Backend) (limit : ℤ) → (1 ≤ clamp_limit b limit) × (clamp_limit b limit ≤ 100)
clamped b (pos zero) = (omega arith, omega arith)
clamped b (pos (suc n)) = (ground arith, ground arith)
clamped b (negsuc n) = (omega arith, omega arith)

-- Whatever the query says, the limit of a list is between 1 and 100, and the page that the handler
-- itself cuts out of filtered rows by this limit and offset is the one that LIMIT and OFFSET of SQL
-- give.
pub parse_pagination-bounds :
    (b : Backend) (limit_str offset_str : String)
    → let (limit, offset) = parse_pagination b limit_str offset_str in
      (1 ≤ limit)
      × (limit ≤ 100)
      × ((rows : List ScanResultEntity)
          → paginate_wallet_scan_entities rows limit offset ≡ take limit (skip offset rows))
unfolding parse_pagination
parse_pagination-bounds b limit_str offset_str =
    let c = clamped b _ in (c.0, c.1, λ rows. paginate-take rows _ _)

true_not_false : {A : Type 0} → true ≡ false → A
true_not_false h = cc

apart : (x y : String) → str_eq x y ≡ false → x ≢ y
apart x y h e = true_not_false (sym ((str_eq_iff x y).1 e) ∙ h)

module _ (b : Backend) (expected_token : String) (r : HttpRequest) where
  abbrev header : String
  header = trim_space r.header_authorization

  abbrev token : String
  token = trim_space (drop 7 header)

  abbrev pub is_bearer : Bool
  is_bearer = has_prefix "bearer " (to_lower b.codec.lower header)

  granted :
      is_authorized b expected_token r ≡ true
      → (str_eq (trim_space expected_token) "" ≡ false)
        × (str_eq token (trim_space expected_token) ≡ true)
        × (is_bearer ≡ true)
  unfolding is_authorized
  granted h = (ground (arith, h), ground (arith, h), ground (arith, h))

  same_not_empty : (x y : String) → str_eq x y ≡ true → str_eq y "" ≡ false → str_eq x "" ≡ false
  same_not_empty x y e h = rw ((str_eq_iff x y).0 e) h

  denied :
      is_authorized b expected_token r ≡ false
      → str_eq (trim_space expected_token) "" ≡ true
        ⊎ (str_eq token (trim_space expected_token) ≡ false ⊎ is_bearer ≡ false)
  unfolding is_authorized
  denied h = elim (Bool-cases is_bearer) [
    | inr other ↦ inr (inr other)
    | inl bearer ↦ elim (Bool-cases (str_eq (trim_space expected_token) "")) [
      | inl blank ↦ inl blank
      | inr set ↦ elim (Bool-cases (str_eq token (trim_space expected_token))) [
        | inr other ↦ inr (inl other)
        | inl same ↦ absurd (
            true_not_false (
              rw (bearer, same, set, same_not_empty token (trim_space expected_token) same set) at
                h))
      ]
    ]
  ]

  -- The middleware lets a request through to its handler if the expected token is not blank and the
  -- header Authorization bears the same token, outer blanks apart; it refuses any other request at
  -- once, and then no store is called.
  pub service_auth_middleware-either :
      (next : HttpRequest → Handler b Response) (s : Session b)
      → let answer = service_auth_middleware b expected_token next r s in
        ((str_eq (trim_space expected_token) "" ≡ false)
          × (token ≡ trim_space expected_token)
          × (is_bearer ≡ true)
          × (answer ≡ next r s))
        ⊎ ((str_eq (trim_space expected_token) "" ≡ true
              ⊎ (token ≢ trim_space expected_token ⊎ is_bearer ≡ false))
            × (answer ≡ (err (refused b expected_token r), s)))
  unfolding service_auth_middleware
  service_auth_middleware-either next s = elim (Bool-cases (is_authorized b expected_token r)) [
    | inl let_in ↦
        let g = granted let_in in
        inl (g.0, (str_eq_iff token (trim_space expected_token)).0 g.1, g.2, rw let_in refl)
    | inr out ↦ inr (
      elim (denied out) [
        | inl blank ↦ inl blank
        | inr (inl other) ↦ inr (inl (apart token (trim_space expected_token) other))
        | inr (inr other) ↦ inr (inr other)
      ],
      rw out refl,
    )
  ]
