-- ===== src/ScanApi/Text.antt =====
-- strings.TrimSpace, ToLower and HasPrefix, which the handlers apply to what a client sends. The
-- lower case of one character is the table of the Go package unicode: a parameter.
use Prim.Native.Char.{Char, code}
use cafe_persistence.Prelude.{
  ◌≡◌, refl, ℕ, zero, suc, String, str_eq, Bool, true, false, ◌&&◌, ◌||◌, if◌then◌else◌, leb, ◌==◌,
}

-- unicode.IsSpace
is_space_code : ℕ → Bool
is_space_code c =
    leb 9 c && leb c 13
    || c == 32
    || c == 0x85
    || c == 0xA0
    || c == 0x1680
    || leb 0x2000 c && leb c 0x200A
    || c == 0x2028
    || c == 0x2029
    || c == 0x202F
    || c == 0x205F
    || c == 0x3000

abbrev is_empty : String → Bool
is_empty String.[] = true
is_empty (String.◌∷◌ c s) = false

trim_left : String → String
unfolding is_space_code
trim_left String.[] = String.[]
trim_left (String.◌∷◌ c s) =
    let rest = trim_left s in if is_space_code (code c) then rest else String.◌∷◌ c s

trim_right : String → String
unfolding is_space_code
trim_right String.[] = String.[]
trim_right (String.◌∷◌ c s) =
    let rest = trim_right s in
    if is_space_code (code c) && is_empty rest then String.[] else String.◌∷◌ c rest

unfoldable pub trim_space : String → String
unfolding trim_left trim_right
trim_space s = trim_right (trim_left s)

unfoldable pub to_lower : (Char → Char) → String → String
to_lower lower String.[] = String.[]
to_lower lower (String.◌∷◌ c s) = String.◌∷◌ (lower c) (to_lower lower s)

-- s[n:], with the bytes of ASCII text
abbrev pub drop : ℕ → String → String
drop zero s = s
drop (suc n) String.[] = String.[]
drop (suc n) (String.◌∷◌ c s) = drop n s

-- strings.HasPrefix, with the prefix first
abbrev pub has_prefix : String → String → Bool
has_prefix String.[] s = true
has_prefix (String.◌∷◌ c p) String.[] = false
has_prefix (String.◌∷◌ c p) (String.◌∷◌ d s) =
    str_eq (String.◌∷◌ c String.[]) (String.◌∷◌ d String.[]) && has_prefix p s

trims : trim_space "  a b\t\n" ≡ "a b"
unfolding trim_space
trims = refl
