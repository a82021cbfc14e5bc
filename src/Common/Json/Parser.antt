-- ===== src/Common/Json/Parser.antt =====
-- The document that tokens make up: the scanner of `encoding/json` with its stack of open objects and
-- arrays, of which there may be at most 10000.
use log_morph.Common.{
  ℕ, String, ◌≡◌, refl, Bool, true, false, Option, none, some, List, [], ◌∷◌, length, ltb, is_none,
  not, if◌then◌else◌,
}
use log_morph.Common.Json.{
  Json, text, array, object, Items, no_items, Members, no_members, add_item, add_member,
}
use log_morph.Common.Json.Lexer.{
  Token, open_object, close_object, open_array, close_array, colon, comma, scalar, between, lex,
}

-- what is open: an array with its items, or an object with its members and the name of the next
pub data Frame : Type 0 where
  in_array : Items → Frame
  in_object : Members → String → Frame

abbrev pub Stack : Type 0
Stack = List Frame

-- what may come next; the Bool allows a close in place of a first item or name
pub data State : Type 0 where
  want_value : Bool → Stack → State
  want_name : Bool → Members → Stack → State
  want_colon : Members → String → Stack → State
  have_value : Json → Stack → State

abbrev pub max_nesting_depth : ℕ
max_nesting_depth = 10_000

-- the state in an object or array that has just been opened
abbrev opened : Stack → State → Option State
opened stack next = if ltb (length stack) max_nesting_depth then some next else none

abbrev value_step : Bool → Stack → Token → Option State
value_step first stack (scalar v) = some (have_value v stack)
value_step first stack open_object = opened stack (want_name true no_members stack)
value_step first stack open_array = opened stack (want_value true (in_array no_items ∷ stack))
value_step true (in_array no_items ∷ stack) close_array = some (have_value (array no_items) stack)
value_step _ _ _ = none

abbrev name_step : Bool → Members → Stack → Token → Option State
name_step first members stack (scalar (text k)) = some (want_colon members k stack)
name_step true members stack close_object = some (have_value (object members) stack)
name_step _ _ _ _ = none

abbrev after_value : Json → Stack → Token → Option State
after_value v (in_array items ∷ stack) comma =
    some (want_value false (in_array (add_item items v) ∷ stack))
after_value v (in_array items ∷ stack) close_array =
    some (have_value (array (add_item items v)) stack)
after_value v (in_object members k ∷ stack) comma =
    some (want_name false (add_member members k v) stack)
after_value v (in_object members k ∷ stack) close_object =
    some (have_value (object (add_member members k v)) stack)
after_value _ _ _ = none

abbrev pub token_step : State → Token → Option State
token_step (want_value first stack) t = value_step first stack t
token_step (want_name first members stack) t = name_step first members stack t
token_step (want_colon members k stack) colon =
    some (want_value false (in_object members k ∷ stack))
token_step (want_colon _ _ _) _ = none
token_step (have_value v stack) t = after_value v stack t

abbrev pub document : State → Option Json
document (have_value v []) = some v
document _ = none

abbrev pub or_stay : State → Option State → State
or_stay s none = s
or_stay s (some t) = t

abbrev if_stepped : Option State → Option Json → Option Json
if_stepped none rest = none
if_stepped (some _) rest = rest

unfoldable pub parse_tokens : State → List Token → Option Json
parse_tokens s [] = document s
parse_tokens s (t ∷ ts) =
    let next = token_step s t in let rest = parse_tokens (or_stay s next) ts in if_stepped next rest

abbrev parsed : Option (List Token) → Option Json
parsed none = none
parsed (some ts) = parse_tokens (want_value false []) ts

-- the value of a document; `none` for a syntax error
unfoldable pub parse : String → Option Json
unfolding parse_tokens
parse s = parsed (lex between s)

-- `json.Valid`
unfoldable pub valid : String → Bool
unfolding parse
valid s = not (is_none (parse s))

json_tests :
    (valid "{\"a\": [1, -2.5e+3, true, null, \"x\\u00e9\\n\"], \"b\": {}}" ≡ true)
    × (valid "[]" ≡ true)
    × (valid " 12 " ≡ true)
    × (valid "[1,]" ≡ false)
    × (valid "{\"a\" 1}" ≡ false)
    × (valid "01" ≡ false)
    × (valid "{} {}" ≡ false)
    × (valid "[\"a\\x\"]" ≡ false)
    × (valid "" ≡ false)
    × (parse "\"\\ud83d\\ude00\\ud800!\"" ≡ some (text "😀�!"))
unfolding valid lex
json_tests = (refl, refl, refl, refl, refl, refl, refl, refl, refl, refl)
