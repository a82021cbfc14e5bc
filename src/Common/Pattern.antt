-- ===== src/Common/Pattern.antt =====
-- Matchers for the regular expressions of the program, as RE2 matches them. In each of them a part
-- starts with characters that the part before it does not take, so there is no backtracking: a part
-- either fails or leaves what follows it.
use Prim.Native.Char.{Char, code}
use Prim.Native.String.{len, slice}
use log_morph.Common.{
  ℕ, zero, suc, ◌-◌, String, Bool, ◌&&◌, ◌||◌, Option, none, some, leb, eqb, if◌then◌else◌,
}

abbrev pub is_digit : Char → Bool
is_digit c = leb b'0' (code c) && leb (code c) b'9'

abbrev pub is_upper : Char → Bool
is_upper c = leb b'A' (code c) && leb (code c) b'Z'

abbrev pub is_lower : Char → Bool
is_lower c = leb b'a' (code c) && leb (code c) b'z'

-- `\s`: tab, line feed, form feed, carriage return, space
abbrev pub is_blank : Char → Bool
is_blank c =
    eqb (code c) 9 || eqb (code c) 10 || eqb (code c) 12 || eqb (code c) 13 || eqb (code c) 32

abbrev pub is_word : Char → Bool
is_word c = is_digit c || is_upper c || is_lower c || eqb (code c) b'_'

-- what is left behind a match at the start
abbrev pub Pattern : Type 0
Pattern = String → Option String

abbrev pub one : (Char → Bool) → Pattern
one is String.[] = none
one is (String.◌∷◌ c s) = if is c then some s else none

abbrev pub literal : ℕ → Pattern
literal n = one (λ c. eqb (code c) n)

infixr 5 ◌then◌
abbrev pub ◌then◌ : Pattern → Pattern → Pattern
◌then◌ p q s = elim (p s) [ none ↦ none | some t ↦ q t ]

abbrev pub ◌or◌ : Pattern → Pattern → Pattern
◌or◌ p q s = elim (p s) [ none ↦ q s | some t ↦ some t ]

abbrev pub optional : Pattern → Pattern
optional p s = elim (p s) [ none ↦ some s | some t ↦ some t ]

-- as many as there are
unfoldable pub many : (Char → Bool) → String → String
many is String.[] = ""
many is (String.◌∷◌ c s) = let rest = many is s in if is c then rest else String.◌∷◌ c s

unfoldable pub some_of : (Char → Bool) → Pattern
unfolding many
some_of is s = elim (one is s) [ none ↦ none | some t ↦ some (many is t) ]

abbrev pub digits : ℕ → Pattern
digits zero = some
digits (suc n) = one is_digit then digits n

-- `\d{2}:\d{2}:\d{2}`
abbrev pub clock_time : Pattern
clock_time = digits 2 then literal b':' then digits 2 then literal b':' then digits 2

unfoldable pub bsd_date : Pattern
unfolding some_of
bsd_date =
    one is_upper
    then one is_lower
    then one is_lower
    then some_of is_blank
    then some_of is_digit
    then some_of is_blank
    then clock_time

unfoldable pub priority : Pattern
unfolding some_of
priority = literal b'<' then some_of is_digit then literal b'>'

-- the text that a match has taken off the front
abbrev pub taken : String → String → String
taken s rest = slice s 0 (len s - len rest)
