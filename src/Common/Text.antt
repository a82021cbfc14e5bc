-- ===== src/Common/Text.antt =====
-- What the program uses of Go's `strings` and of `%d`. A Go string of this program is valid UTF-8
-- (it comes out of `encoding/json`), so it is a native text, a list of code points.
use Prim.Native.Nat.{ℕ, zero, suc, ◌-◌, ◌/◌, ◌%◌}
use Prim.Native.Char.{Char, code}
use Prim.Native.String
use Prim.Native.String.{len, slice, char_at}
use text.Mathlib.Text.{find?, starts_with}
use log_morph.Common.{
  String, ◌≡◌, refl, Bool, true, not, ◌&&◌, ◌||◌, List, [], ◌∷◌, leb, ltb, eqb, ◌==◌, is_none,
  if◌then◌else◌,
}

-- The case tables of Go's `unicode` package above ASCII, which the program does not contain.
pub record Unicode : Type 0 where
  pub lower_rune : Char → Char
  pub upper_rune : Char → Char

infixr 65 ◌+++◌
abbrev pub ◌+++◌ : String → String → String
s +++ t = String.◌++◌ s t

-- `unicode.IsSpace`
abbrev pub is_space : Char → Bool
is_space ch =
    let c = code ch in
    (leb 9 c && leb c 13)
    || eqb c 0x20
    || eqb c 0x85
    || eqb c 0xA0
    || eqb c 0x1680
    || (leb 0x2000 c && leb c 0x200a)
    || eqb c 0x2028
    || eqb c 0x2029
    || eqb c 0x202f
    || eqb c 0x205f
    || eqb c 0x3000

trim_left : String → String
trim_left String.[] = ""
trim_left (String.◌∷◌ c s) = let rest = trim_left s in if is_space c then rest else String.◌∷◌ c s

trim_right : String → String
trim_right String.[] = ""
trim_right (String.◌∷◌ c s) =
    let rest = trim_right s in if is_space c && rest == "" then "" else String.◌∷◌ c rest

-- `strings.TrimSpace`
unfoldable pub trim_space : String → String
unfolding trim_left trim_right
trim_space s = trim_right (trim_left s)

-- the letters of ASCII, by their distance from `A` or `a`
abbrev letter : String → ℕ → Char
letter alphabet n = char_at alphabet n

lower : Unicode → Char → Char
lower u ch =
    let c = code ch in
    if ltb c 128
    then (if leb b'A' c && leb c b'Z' then letter "abcdefghijklmnopqrstuvwxyz" (c - b'A') else ch)
    else u.lower_rune ch

upper : Unicode → Char → Char
upper u ch =
    let c = code ch in
    if ltb c 128
    then (if leb b'a' c && leb c b'z' then letter "ABCDEFGHIJKLMNOPQRSTUVWXYZ" (c - b'a') else ch)
    else u.upper_rune ch

-- `strings.ToLower`
unfoldable pub to_lower : Unicode → String → String
unfolding lower
to_lower u String.[] = ""
to_lower u (String.◌∷◌ c s) = String.◌∷◌ (lower u c) (to_lower u s)

-- `strings.ToUpper`
unfoldable pub to_upper : Unicode → String → String
unfolding upper
to_upper u String.[] = ""
to_upper u (String.◌∷◌ c s) = String.◌∷◌ (upper u c) (to_upper u s)

-- `if v == "" { v = next }`
abbrev pub or_else : String → String → String
or_else v next = if v == "" then next else v

-- `strings.Contains`
abbrev pub contains : String → String → Bool
contains s t = not (is_none (find? s t))

-- `strings.HasPrefix`
abbrev pub has_prefix : String → String → Bool
has_prefix s t = starts_with s t

-- `strings.HasSuffix`
abbrev pub has_suffix : String → String → Bool
has_suffix s t = leb (len t) (len s) && slice s (len s - len t) (len s) == t

push : String → Char → String
push s c = s +++ String.◌∷◌ c ""

fields_from : String → String → List String
unfolding push
fields_from word String.[] = if word == "" then [] else word ∷ []
fields_from word (String.◌∷◌ c s) =
    let rest = fields_from "" s in
    let longer = fields_from (push word c) s in
    if is_space c then (if word == "" then rest else word ∷ rest) else longer

-- `strings.Fields`
unfoldable pub fields : String → List String
unfolding fields_from
fields s = fields_from "" s

digit : ℕ → String
digit n = String.◌∷◌ (char_at "0123456789" n) ""

decimal_from : ℕ → ℕ → String → String
unfolding digit
decimal_from zero n out = out
decimal_from (suc fuel) n out =
    let longer = decimal_from fuel (n / 10) (digit (n % 10) +++ out) in
    if ltb n 10 then digit n +++ out else longer

-- `%d` of an index: `n + 1` rounds are more than its digits
unfoldable pub decimal : ℕ → String
unfolding decimal_from
decimal n = decimal_from (suc n) n ""

-- the tables of a program that meets ASCII alone
abbrev pub ascii : Unicode
ascii = record { lower_rune = λ c. c; upper_rune = λ c. c }

text_tests :
    (trim_space " \t ab c\n" ≡ "ab c")
    × (to_lower ascii "JsON-é" ≡ "json-é")
    × (to_upper ascii "tcp" ≡ "TCP")
    × (fields " a  bc d " ≡ "a" ∷ "bc" ∷ "d" ∷ [])
    × (decimal 1070 ≡ "1070")
    × (has_suffix "{ab}" "}" ≡ true)
    × (contains "a,b" "," ≡ true)
unfolding trim_space to_lower to_upper fields decimal
text_tests = (refl, refl, refl, refl, refl, refl, refl)
