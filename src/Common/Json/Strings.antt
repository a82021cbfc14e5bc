-- ===== src/Common/Json/Strings.antt =====
-- The string literals of JSON, as `encoding/json` writes them with HTML escaping, and as it reads them.
use Prim.Native.Char.{Char, char, code, IsLt}
use Prim.Native.Nat.{Ordering, compare}
use Prim.Native.String.{char_at}
use log_morph.Common.{
  ℕ, zero, suc, ◌+◌, ◌-◌, ◌*◌, ◌/◌, ◌%◌, String, Bool, false, ◌&&◌, ◌||◌, Option, none, some, leb,
  ltb, eqb, if◌then◌else◌,
}

-- `unicode.ReplacementChar`
abbrev pub replacement : Char
replacement = char 0xFFFD tt

-- `IsScalar` of a number, by how it compares with the bounds of the surrogates and with the greatest
-- code point
abbrev IsBoth : Ordering → Ordering → Type 0
IsBoth Ordering.lt o = IsLt o
IsBoth Ordering.eq _ = ⊥
IsBoth Ordering.gt _ = ⊥

abbrev pub IsRune : Ordering → Ordering → Ordering → Type 0
IsRune Ordering.lt _ _ = Unit
IsRune Ordering.eq o p = IsBoth o p
IsRune Ordering.gt o p = IsBoth o p

-- The character of a code point, where it is one.
abbrev pub rune_by : (a b c : Ordering) → (IsRune a b c → Char) → Char
rune_by Ordering.lt b c make = make tt
rune_by Ordering.eq Ordering.lt Ordering.lt make = make tt
rune_by Ordering.gt Ordering.lt Ordering.lt make = make tt
rune_by _ _ _ make = replacement

abbrev pub rune : ℕ → Char
rune n = rune_by (compare n 55296) (compare 57343 n) (compare n 1114112) (char n)

abbrev pub hex_digit : ℕ → Char
hex_digit n = char_at "0123456789abcdef" n

-- `\u` and four digits
unfoldable pub unicode_escape : ℕ → String → String
unicode_escape n rest = String.◌∷◌ "\\" (
    String.◌∷◌ "u" (
      String.◌∷◌ (hex_digit (n / 4096 % 16)) (
        String.◌∷◌ (hex_digit (n / 256 % 16))
          (String.◌∷◌ (hex_digit (n / 16 % 16)) (String.◌∷◌ (hex_digit (n % 16)) rest)))))

-- other control characters, `<`, `>`, `&`, and the line separators U+2028 and U+2029
abbrev pub is_hidden : ℕ → Bool
is_hidden n = ltb n 0x20 || eqb n 0x3C || eqb n 0x3E || eqb n 0x26 || eqb n 0x2028 || eqb n 0x2029

abbrev pub backslash : Char → String → String
backslash c rest = String.◌∷◌ "\\" (String.◌∷◌ c rest)

-- a character of a string, in front of the rest
unfoldable pub escape : Char → String → String
unfolding unicode_escape
escape c rest =
    let n = code c in
    if eqb n 0x22 || eqb n 0x5C
    then backslash c rest
    else (if eqb n 8
        then backslash "b" rest
        else (if eqb n 12
            then backslash "f" rest
            else (if eqb n 10
                then backslash "n" rest
                else (if eqb n 13
                    then backslash "r" rest
                    else (if eqb n 9
                        then backslash "t" rest
                        else (if is_hidden n then unicode_escape n rest else String.◌∷◌ c rest))))))

-- the characters of a string and the closing quote
unfoldable pub escape_all : String → String → String
unfolding escape
escape_all String.[] rest = String.◌∷◌ "\"" rest
escape_all (String.◌∷◌ c s) rest = escape c (escape_all s rest)

-- a string literal
unfoldable pub quote : String → String → String
unfolding escape_all
quote s rest = String.◌∷◌ "\"" (escape_all s rest)

-- Where a reader stands in a literal: at a character, behind a backslash, or with digits of `\u` to
-- come. It may hold a surrogate that the `\u` before has given.
pub data Mode : Type 0 where
  plain : Option ℕ → Mode
  escaped : Option ℕ → Mode
  hex : Option ℕ → (left value : ℕ) → Mode

pub data Move : Type 0 where
  go : String → Mode → Move
  closed : String → Move
  refused : Move

abbrev pub single : Char → String
single c = String.◌∷◌ c ""

-- a surrogate without its pair
abbrev pub flush : Option ℕ → String → String
flush none s = s
flush (some _) s = String.◌∷◌ replacement s

abbrev pub is_surrogate : ℕ → Bool
is_surrogate n = leb 0xD800 n && leb n 0xDFFF

abbrev is_pair : Option ℕ → ℕ → Bool
is_pair none low = false
is_pair (some high) low = ltb high 0xDC00 && leb 0xDC00 low && leb low 0xDFFF

abbrev combined : Option ℕ → ℕ → ℕ
combined none low = low
combined (some high) low = (high - 0xD800) * 1024 + (low - 0xDC00) + 0x10000

-- the value of a `\u`, as `utf16.DecodeRune` pairs it
abbrev pub unit : Option ℕ → ℕ → Move
unit held n =
    if is_pair held n
    then go (single (rune (combined held n))) (plain none)
    else (if is_surrogate n
        then go (flush held "") (plain (some n))
        else go (flush held (single (rune n))) (plain none))

abbrev pub hex_value : ℕ → Option ℕ
hex_value c =
    if leb b'0' c && leb c b'9'
    then some (c - b'0')
    else (if leb b'a' c && leb c b'f'
        then some (c - b'a' + 10)
        else (if leb b'A' c && leb c b'F' then some (c - b'A' + 10) else none))

abbrev pub hex_step : Option ℕ → ℕ → ℕ → Option ℕ → Move
hex_step held left value none = refused
hex_step held zero value (some d) = unit held (16 * value + d)
hex_step held (suc left) value (some d) = go "" (hex held left (16 * value + d))

abbrev at_plain : Option ℕ → Char → Move
at_plain held c =
    let n = code c in
    if eqb n 0x22
    then closed (flush held "")
    else (if eqb n 0x5C
        then go "" (escaped held)
        else (if ltb n 0x20 then refused else go (flush held (single c)) (plain none)))

abbrev pub at_escaped : Option ℕ → ℕ → Move
at_escaped held n =
    if eqb n b'u'
    then go "" (hex held 3 0)
    else (if eqb n b'b'
        then go (flush held (single (rune 8))) (plain none)
        else (if eqb n b'f'
            then go (flush held (single (rune 12))) (plain none)
            else (if eqb n b'n'
                then go (flush held (single (rune 10))) (plain none)
                else (if eqb n b'r'
                    then go (flush held (single (rune 13))) (plain none)
                    else (if eqb n b't'
                        then go (flush held (single (rune 9))) (plain none)
                        else (if eqb n 0x22 || eqb n 0x5C || eqb n b'/'
                            then go (flush held (single (rune n))) (plain none)
                            else refused))))))

-- the next character of a literal
abbrev pub step : Mode → Char → Move
step (plain held) c = at_plain held c
step (escaped held) c = at_escaped held (code c)
step (hex held left value) c = hex_step held left value (hex_value (code c))
