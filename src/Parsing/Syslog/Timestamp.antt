-- ===== src/Parsing/Syslog/Timestamp.antt =====
-- `parseSyslogTimestamp` of internal/parsing/parsers/syslog.go, with what `time.Parse` does for the
-- layout `2006 Jan 02 15:04:05`. A timestamp of the header's regular expression starts with a letter,
-- so the attempt with `time.RFC3339`, which starts with a digit, always fails and is left out.
use Prim.Native.Char.{Char, code}
use log_morph.Common.{
  ℕ, suc, ◌+◌, ◌-◌, ◌*◌, ◌%◌, String, ◌≡◌, refl, Bool, not, ◌&&◌, ◌||◌, Option, none, some, List,
  [], ◌∷◌, leb, ltb, eqb, ◌==◌, if◌then◌else◌,
}
use log_morph.Common.Pattern.{is_digit}
use log_morph.Common.Text.{◌+++◌, decimal, to_lower, ascii}
use log_morph.Models.{Readings}

abbrev digit_value : Char → ℕ
digit_value c = code c - b'0'

-- `getnum(s, true)`: two digits, as `02`, `04` and `05` want them
two_digits : String → Option (ℕ × String)
two_digits String.[] = none
two_digits (String.◌∷◌ a String.[]) = none
two_digits (String.◌∷◌ a (String.◌∷◌ b s)) =
    if is_digit a && is_digit b then some (10 * digit_value a + digit_value b, s) else none

-- A space of the layout stands for any number of them, but not for another character.
drop_spaces : String → String
drop_spaces String.[] = ""
drop_spaces (String.◌∷◌ c s) =
    let rest = drop_spaces s in if eqb (code c) 0x20 then rest else String.◌∷◌ c s

space : String → Option String
unfolding drop_spaces
space String.[] = some ""
space (String.◌∷◌ c s) = if eqb (code c) 0x20 then some (drop_spaces s) else none

colon : String → Option String
colon String.[] = none
colon (String.◌∷◌ c s) = if eqb (code c) b':' then some s else none

abbrev month_names : List String
month_names =
    "jan" ∷ "feb" ∷ "mar" ∷ "apr" ∷ "may" ∷ "jun" ∷ "jul" ∷ "aug" ∷ "sep" ∷ "oct" ∷ "nov" ∷ "dec"
    ∷ []

abbrev index_from : ℕ → String → List String → Option ℕ
index_from n name [] = none
index_from n name (m ∷ ms) = if name == m then some n else index_from (suc n) name ms

-- `Jan`: three letters in either case
month : String → Option (ℕ × String)
month String.[] = none
month (String.◌∷◌ a String.[]) = none
month (String.◌∷◌ a (String.◌∷◌ b String.[])) = none
month (String.◌∷◌ a (String.◌∷◌ b (String.◌∷◌ c s))) =
    let name = String.◌∷◌ a (String.◌∷◌ b (String.◌∷◌ c "")) in
    elim (index_from 1 (to_lower ascii name) month_names) [ none ↦ none | some n ↦ some (n, s) ]

abbrev is_leap : ℕ → Bool
is_leap y = eqb (y % 4) 0 && (not (eqb (y % 100) 0) || eqb (y % 400) 0)

abbrev days_in : ℕ → ℕ → ℕ
days_in m y =
    if eqb m 2
    then (if is_leap y then 29 else 28)
    else (if eqb m 4 || eqb m 6 || eqb m 9 || eqb m 11 then 30 else 31)

abbrev two : ℕ → String
two n = if ltb n 10 then "0" +++ decimal n else decimal n

abbrev four : ℕ → String
four n =
    if ltb n 10
    then "000" +++ decimal n
    else (if ltb n 100
        then "00" +++ decimal n
        else (if ltb n 1000 then "0" +++ decimal n else decimal n))

infixl 5 ◌>>=◌
abbrev ◌>>=◌ {ℓ κ} : {A : Type ℓ} {B : Type κ} → Option A → (A → Option B) → Option B
none >>= f = none
some a >>= f = f a

abbrev when_valid : ℕ → ℕ → ℕ → ℕ → ℕ → ℕ → String → Option String
when_valid y m d hour minute second rest =
    if rest == "" && leb 1 d && leb d (days_in m y) && ltb hour 24 && ltb minute 60 && ltb second 60
    then some (
        four y
        +++ "-"
        +++ two m
        +++ "-"
        +++ two d
        +++ "T"
        +++ two hour
        +++ ":"
        +++ two minute
        +++ ":"
        +++ two second
        +++ "Z")
    else none

-- The time of this year, if `time.Parse` accepts it, formatted. The regular expression has made
-- sure of two digits in the hour.
unfoldable pub in_year : ℕ → String → Option String
unfolding two_digits space colon month
in_year y raw = do
  (m, s1) ← month raw
  s2 ← space s1
  (d, s3) ← two_digits s2
  s4 ← space s3
  (hour, s5) ← two_digits s4
  s6 ← colon s5
  (minute, s7) ← two_digits s6
  s8 ← colon s7
  (second, s9) ← two_digits s8
  when_valid y m d hour minute second s9

abbrev stamp_or : Readings → Option String → String
stamp_or now none = (now 1).stamp
stamp_or now (some stamp) = stamp

-- `parseSyslogTimestamp`; the first reading gives the year
unfoldable pub syslog_timestamp : Readings → String → String
unfolding in_year
syslog_timestamp now raw =
    if raw == "" then (now 0).stamp else stamp_or now (in_year (now 0).year raw)

timestamp_tests :
    (in_year 2026 "Aug 28 18:30:12" ≡ some "2026-08-28T18:30:12Z")
    × (in_year 2026 "Aug  8 18:30:12" ≡ none)
    × (in_year 2026 "Aug 08 18:30:12" ≡ some "2026-08-08T18:30:12Z")
    × (in_year 2026 "Feb 29 18:30:12" ≡ none)
unfolding in_year to_lower decimal
timestamp_tests = (refl, refl, refl, refl)
