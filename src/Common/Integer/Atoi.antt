-- ===== src/Common/Integer/Atoi.antt =====
-- `strconv.Atoi` on a 64-bit machine: `none` for its errors
use Prim.Native.Char.{Char, code}
use log_morph.Common.{
  ℕ, zero, suc, ◌+◌, ◌-◌, ◌*◌, ◌^◌, String, ◌≡◌, refl, Bool, ◌&&◌, Option, none, some, leb, ltb,
  eqb, if◌then◌else◌,
}
use log_morph.Common.Integer.{ℤ, pos, negsuc}

abbrev is_digit : Char → Bool
is_digit c = leb b'0' (code c) && leb (code c) b'9'

-- the digits that are left, after a number
digits : ℕ → String → Option ℕ
digits n String.[] = some n
digits n (String.◌∷◌ c s) =
    let rest = digits (10 * n + (code c - b'0')) s in if is_digit c then rest else none

-- at least one digit
unsigned : String → Option ℕ
unfolding digits
unsigned String.[] = none
unsigned (String.◌∷◌ c s) = digits 0 (String.◌∷◌ c s)

abbrev negate : ℕ → ℤ
negate zero = pos 0
negate (suc n) = negsuc n

abbrev positive_in_range : Option ℕ → Option ℤ
positive_in_range none = none
positive_in_range (some n) = if ltb n (2 ^ 63) then some (pos n) else none

abbrev negative_in_range : Option ℕ → Option ℤ
negative_in_range none = none
negative_in_range (some n) = if leb n (2 ^ 63) then some (negate n) else none

unfoldable pub atoi : String → Option ℤ
unfolding unsigned
atoi String.[] = none
atoi (String.◌∷◌ c s) =
    if eqb (code c) b'-'
    then negative_in_range (unsigned s)
    else positive_in_range (unsigned (if eqb (code c) b'+' then s else String.◌∷◌ c s))

atoi_tests :
    (atoi "443" ≡ some (pos 443))
    × (atoi "-7" ≡ some (negsuc 6))
    × (atoi "+0" ≡ some (pos 0))
    × (atoi "4a" ≡ none)
    × (atoi "-" ≡ none)
    × (atoi "9223372036854775807" ≡ some (pos 9223372036854775807))
    × (atoi "9223372036854775808" ≡ none)
unfolding atoi
atoi_tests = (refl, refl, refl, refl, refl, refl, refl)
