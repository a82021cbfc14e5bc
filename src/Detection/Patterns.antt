-- ===== src/Detection/Patterns.antt =====
-- The two regular expressions of internal/detection/detector.go, as RE2 matches them
use Prim.Native.Char.{Char, code}
use log_morph.Common.Pattern.{
  is_blank, is_word, one, literal, ◌then◌, ◌or◌, optional, some_of, many, digits, clock_time,
  bsd_date, priority, Pattern,
}
use log_morph.Common.{
  ◌+◌, String, ◌≡◌, refl, Bool, true, false, ◌&&◌, ◌||◌, not, eqb, is_none, if◌then◌else◌,
}

iso_date : Pattern
iso_date =
    digits 4
    then literal b'-'
    then digits 2
    then literal b'-'
    then digits 2
    then one (λ c. eqb (code c) b'T' || is_blank c)
    then clock_time

-- `syslogTimestampRegex.MatchString`
unfoldable pub has_timestamp : String → Bool
unfolding bsd_date iso_date priority some_of many
has_timestamp s = not (is_none ((optional priority then ◌or◌ bsd_date iso_date) s))

-- A letter of a key under `(?i)`; the long s, U+017F, folds to S.
abbrev folds : Char → Char → Bool
folds c key =
    eqb (code c) (code key)
    || eqb (code c) (code key + 32)
    || (eqb (code key) b'S' && eqb (code c) 0x17F)

is_key : String → String → Bool
is_key String.[] String.[] = false
is_key String.[] (String.◌∷◌ c s) = eqb (code c) b'='
is_key (String.◌∷◌ k key) String.[] = false
is_key (String.◌∷◌ k key) (String.◌∷◌ c s) = folds c k && is_key key s

is_any_key : String → Bool
unfolding is_key
is_any_key s =
    is_key "SRC" s
    || is_key "DST" s
    || is_key "SPT" s
    || is_key "DPT" s
    || is_key "PROTO" s
    || is_key "ACTION" s

abbrev eqb_bool : Bool → Bool → Bool
eqb_bool true b = b
eqb_bool false b = not b

-- `after_word`: whether the character before is one of a word
has_key_from : Bool → String → Bool
unfolding is_any_key
has_key_from after_word String.[] = false
has_key_from after_word (String.◌∷◌ c s) =
    (not (eqb_bool after_word (is_word c)) && is_any_key (String.◌∷◌ c s))
    || has_key_from (is_word c) s

-- `syslogKVRegex.MatchString`
unfoldable pub has_key : String → Bool
unfolding has_key_from
has_key s = has_key_from false s

pattern_tests :
    (has_timestamp "<134>Aug 28 18:30:12 fw" ≡ true)
    × (has_timestamp "2026-01-02T03:04:05Z" ≡ true)
    × (has_timestamp "Aug 28 18:30" ≡ false)
    × (has_key "x src=1.2.3.4" ≡ true)
    × (has_key "xsrc=1" ≡ false)
    × (has_key "SRC" ≡ false)
unfolding has_timestamp has_key
pattern_tests = (refl, refl, refl, refl, refl, refl)
