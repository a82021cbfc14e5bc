-- ===== src/Common/Json/Stream.antt =====
-- `json.Decoder`: the first value of a text, which may go on behind it.
use log_morph.Common.{String, Option, none, some, false, List, [], ◌∷◌}
use log_morph.Common.Json.{Json}
use log_morph.Common.Json.Lexer.{
  Token, Place, between, Lexed, bad, moved, emitted, lex_step, ended, place_of,
}
use log_morph.Common.Json.Parser.{State, want_value, have_value, token_step, document, or_stay}

abbrev after_step : Option State → Option State → Option State
after_step none rest = none
after_step (some _) rest = rest

-- the tokens of one character
run_tokens : State → List Token → Option State
run_tokens s [] = some s
run_tokens s (t ∷ ts) =
    let next = token_step s t in let rest = run_tokens (or_stay s next) ts in after_step next rest

run_lexed : State → Lexed → Option State
unfolding run_tokens
run_lexed s bad = none
run_lexed s (moved _) = some s
run_lexed s (emitted ts _) = run_tokens s ts

abbrev at_end : State → Option (List Token) → Option Json
at_end s none = none
at_end s (some ts) = elim (run_tokens s ts) [ none ↦ none | some t ↦ document t ]

-- A value is complete when nothing is open and the reader is between tokens.
abbrev or_go_on : Option State → Place → Option Json → Option Json
or_go_on none p rest = none
or_go_on (some (have_value v [])) between rest = some v
or_go_on (some _) _ rest = rest

read_value : Place → State → String → Option Json
unfolding run_lexed lex_step
read_value p s String.[] = at_end s (ended p)
read_value p s (String.◌∷◌ c cs) =
    let l = lex_step p c in
    let next = run_lexed s l in
    let rest = read_value (place_of l) (or_stay s next) cs in or_go_on next (place_of l) rest

-- what `Decode` reads
unfoldable pub first_value : String → Option Json
unfolding read_value
first_value s = read_value between (want_value false []) s
