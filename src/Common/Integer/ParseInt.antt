-- ===== src/Common/Integer/ParseInt.antt =====
-- `strconv.ParseInt(s, 10, 64)`, of which the commands use the value and drop the error.
use Prim.Native.Char.{Char, code}
use log_morph.Common.{
  ℕ, zero, suc, ◌+◌, ◌-◌, ◌*◌, ◌^◌, String, ◌≡◌, refl, Bool, ◌&&◌, leb, ltb, eqb, if◌then◌else◌,
}
use log_morph.Common.Integer.{ℤ, pos, negsuc}

-- what `ParseUint` finds: a number, a character that is no digit, or more than 2^64 - 1
pub data Scan : Type 0 where
  scanned : ℕ → Scan
  bad_syntax out_of_range : Scan

abbrev is_digit : Char → Bool
is_digit c = leb b'0' (code c) && leb (code c) b'9'

-- the loop of `ParseUint`, which stops at the first digit that takes the number out of range
scan_digits : ℕ → String → Scan
scan_digits n String.[] = scanned n
scan_digits n (String.◌∷◌ c s) =
    let next = 10 * n + (code c - b'0') in
    let rest = scan_digits next s in
    if is_digit c then (if ltb next (2 ^ 64) then rest else out_of_range) else bad_syntax

-- `ParseUint`
parse_uint : String → Scan
unfolding scan_digits
parse_uint String.[] = bad_syntax
parse_uint (String.◌∷◌ c s) = scan_digits 0 (String.◌∷◌ c s)

abbrev max_int64 : ℕ
max_int64 = 9_223_372_036_854_775_807

-- A number out of the range of int64 becomes its nearest end, and text that is no number 0.
abbrev clamp_positive : Scan → ℤ
clamp_positive (scanned n) = if leb n max_int64 then pos n else pos max_int64
clamp_positive bad_syntax = pos 0
clamp_positive out_of_range = pos max_int64

abbrev minus : ℕ → ℤ
minus zero = pos 0
minus (suc n) = negsuc n

abbrev clamp_negative : Scan → ℤ
clamp_negative (scanned n) = if leb n max_int64 then minus n else negsuc max_int64
clamp_negative bad_syntax = pos 0
clamp_negative out_of_range = negsuc max_int64

-- `v` after `v, _ := strconv.ParseInt(s, 10, 64)`
unfoldable pub parse_int : String → ℤ
unfolding parse_uint
parse_int String.[] = pos 0
parse_int (String.◌∷◌ c s) =
    if eqb (code c) b'-'
    then clamp_negative (parse_uint s)
    else clamp_positive (parse_uint (if eqb (code c) b'+' then s else String.◌∷◌ c s))

parse_int_tests :
    (parse_int "60000" ≡ pos 60000)
    × (parse_int "-7" ≡ negsuc 6)
    × (parse_int "+5" ≡ pos 5)
    × (parse_int "-0" ≡ pos 0)
    × (parse_int "" ≡ pos 0)
    × (parse_int "10s" ≡ pos 0)
    × (parse_int "9223372036854775808" ≡ pos 9223372036854775807)
    × (parse_int "-9223372036854775809" ≡ negsuc 9223372036854775807)
    × (parse_int "99999999999999999999s" ≡ pos 9223372036854775807)
unfolding parse_int
parse_int_tests = (refl, refl, refl, refl, refl, refl, refl, refl, refl)
