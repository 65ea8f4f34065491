-- ===== src/Policies/Wallets.antt =====
-- internal/cpstore/wallet_target.go. `none` is its error. Go measures bytes and the model
-- characters, which are as many wherever all after 0x are hexadecimal digits.
use Prim.Native.Char.{Char, code}
use cafe_persistence.Prelude.{
  ℕ, zero, suc, String, Bool, true, not, ◌&&◌, ◌||◌, Option, none, some, if◌then◌else◌, leb, ◌==◌,
  str_eq,
}
use cafe_persistence.ScanApi.Text.{trim_space, to_lower, drop, has_prefix}

abbrev pub size : String → ℕ
size String.[] = zero
size (String.◌∷◌ c s) = suc (size s)

abbrev is_hex_code : ℕ → Bool
is_hex_code c = leb 48 c && leb c 57 || leb 97 c && leb c 102

-- the loop over a[2:]
abbrev pub all_hex : String → Bool
all_hex String.[] = true
all_hex (String.◌∷◌ c s) = is_hex_code (code c) && all_hex s

abbrev pub prefixed : String → String
prefixed a =
    let b = if has_prefix "0X" a then String.◌∷◌ "0" (String.◌∷◌ "x" (drop 2 a)) else a in
    if has_prefix "0x" b then b else String.◌∷◌ "0" (String.◌∷◌ "x" b)

unfoldable pub normalize_wallet_target_address : (Char → Char) → String → Option String
normalize_wallet_target_address lower address =
    let a = trim_space address in
    let b = to_lower lower (prefixed a) in
    if str_eq a ""
    then none
    else (if not (size b == 42) || not (has_prefix "0x" b)
        then none
        else (if all_hex (drop 2 b) then some b else none))
