-- ===== src/Common/Json/Lexer.antt =====
-- The tokens of a JSON document.
use Prim.Native.Char.{Char, code}
use log_morph.Common.{
  ℕ, String, Bool, true, false, ◌&&◌, ◌||◌, Option, none, some, List, [], ◌∷◌, leb, eqb, ◌==◌,
  if◌then◌else◌,
}
use log_morph.Common.Text.{◌+++◌}
use log_morph.Common.Json.{Json, null, boolean, number, text}
use log_morph.Common.Json.Strings.{Mode, plain, Move, go, closed, refused, step}

pub data Token : Type 0 where
  open_object close_object open_array close_array colon comma : Token
  -- a string, a number or a word
  scalar : Json → Token

-- what has been read of a number
pub data NumberPart : Type 0 where
  minus zero_digit digits point fraction exponent exponent_sign exponent_digits : NumberPart

pub data Place : Type 0 where
  between : Place
  in_text : Mode → String → Place
  in_number : NumberPart → String → Place
  in_word : String → Place

pub data Lexed : Type 0 where
  bad : Lexed
  moved : Place → Lexed
  emitted : List Token → Place → Lexed

abbrev is_digit : ℕ → Bool
is_digit n = leb b'0' n && leb n b'9'

abbrev after_int : ℕ → Option NumberPart
after_int n =
    if eqb n b'.' then some point else (if eqb n b'e' || eqb n b'E' then some exponent else none)

-- the grammar of numbers
unfoldable pub number_step : NumberPart → ℕ → Option NumberPart
number_step minus n =
    if eqb n b'0' then some zero_digit else (if is_digit n then some digits else none)
number_step zero_digit n = after_int n
number_step digits n = if is_digit n then some digits else after_int n
number_step point n = if is_digit n then some fraction else none
number_step fraction n =
    if is_digit n then some fraction else (if eqb n b'e' || eqb n b'E' then some exponent else none)
number_step exponent n =
    if eqb n b'+' || eqb n b'-'
    then some exponent_sign
    else (if is_digit n then some exponent_digits else none)
number_step exponent_sign n = if is_digit n then some exponent_digits else none
number_step exponent_digits n = if is_digit n then some exponent_digits else none

abbrev is_number : NumberPart → Bool
is_number zero_digit = true
is_number digits = true
is_number fraction = true
is_number exponent_digits = true
is_number _ = false

abbrev pub push : String → Char → String
push s c = s +++ String.◌∷◌ c ""

abbrev is_letter : ℕ → Bool
is_letter n = leb b'a' n && leb n b'z'

abbrev is_blank : ℕ → Bool
is_blank n = eqb n 0x20 || eqb n 9 || eqb n 10 || eqb n 13

-- a character outside of the scalars
abbrev pub outside : Char → Lexed
outside c =
    let n = code c in
    if is_blank n
    then moved between
    else (if eqb n 0x22
        then moved (in_text (plain none) "")
        else (if eqb n b','
            then emitted (comma ∷ []) between
            else (if eqb n b':'
                then emitted (colon ∷ []) between
                else (if eqb n b'{'
                    then emitted (open_object ∷ []) between
                    else (if eqb n b'}'
                        then emitted (close_object ∷ []) between
                        else (if eqb n b'['
                            then emitted (open_array ∷ []) between
                            else (if eqb n b']'
                                then emitted (close_array ∷ []) between
                                else (if eqb n b'-'
                                    then moved (in_number minus (push "" c))
                                    else (if eqb n b'0'
                                        then moved (in_number zero_digit (push "" c))
                                        else (if is_digit n
                                            then moved (in_number digits (push "" c))
                                            else (if is_letter n
                                                then moved (in_word (push "" c))
                                                else bad)))))))))))

abbrev word : String → Option Json
word s =
    if s == "true"
    then some (boolean true)
    else (if s == "false" then some (boolean false) else (if s == "null" then some null else none))

abbrev after_scalar : Option Json → Lexed → Lexed
after_scalar none next = bad
after_scalar (some v) bad = bad
after_scalar (some v) (moved p) = emitted (scalar v ∷ []) p
after_scalar (some v) (emitted ts p) = emitted (scalar v ∷ ts) p

abbrev whole : NumberPart → String → Option Json
whole part s = if is_number part then some (number s) else none

abbrev pub text_step : String → Move → Lexed
text_step s (go out m) = moved (in_text m (s +++ out))
text_step s (closed out) = emitted (scalar (text (s +++ out)) ∷ []) between
text_step s refused = bad

abbrev number_lexed : String → NumberPart → Char → Option NumberPart → Lexed
number_lexed s part c (some next) = moved (in_number next (push s c))
number_lexed s part c none = after_scalar (whole part s) (outside c)

unfoldable pub lex_step : Place → Char → Lexed
unfolding number_step
lex_step between c = outside c
lex_step (in_text m s) c = text_step s (step m c)
lex_step (in_number part s) c = number_lexed s part c (number_step part (code c))
lex_step (in_word s) c =
    if is_letter (code c) then moved (in_word (push s c)) else after_scalar (word s) (outside c)

abbrev one : Option Json → Option (List Token)
one none = none
one (some v) = some (scalar v ∷ [])

-- at the end of the document
abbrev pub ended : Place → Option (List Token)
ended between = some []
ended (in_text m s) = none
ended (in_number part s) = one (whole part s)
ended (in_word s) = one (word s)

abbrev pub prepend : List Token → Option (List Token) → Option (List Token)
prepend ts none = none
prepend [] (some rest) = some rest
prepend (t ∷ ts) (some rest) = some (t ∷ append ts rest)
  where
    append : List Token → List Token → List Token
    append [] ys = ys
    append (x ∷ xs) ys = x ∷ append xs ys

abbrev pub place_of : Lexed → Place
place_of bad = between
place_of (moved p) = p
place_of (emitted ts p) = p

abbrev pub joined : Lexed → Option (List Token) → Option (List Token)
joined bad rest = none
joined (moved p) rest = rest
joined (emitted ts p) rest = prepend ts rest

unfoldable pub lex : Place → String → Option (List Token)
unfolding lex_step
lex p String.[] = ended p
lex p (String.◌∷◌ c s) = let l = lex_step p c in let rest = lex (place_of l) s in joined l rest
