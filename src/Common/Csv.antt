-- ===== src/Common/Csv.antt =====
-- `ReadAll` of Go's `encoding/csv` for a reader with `TrimLeadingSpace` and otherwise the defaults:
-- commas, no comments, no lazy quotes, and as many fields in each record as in the first. An error
-- has its kind as text, without the position.
pub mod Plain
pub mod Printed
use Prim.Native.Char.{Char, code}
use Prim.Native.String
use log_morph.Common.{
  ℕ, String, ◌≡◌, refl, Bool, true, false, ◌&&◌, List, [], ◌∷◌, ◌++◌, Result, ok, err, message, eqb,
  length, if◌then◌else◌,
}
use log_morph.Common.Text.{◌+++◌, is_space}

abbrev pub of_char : Char → String
of_char c = String.◌∷◌ c ""

-- a line feed, as it ends a line
abbrev is_newline : Char → Bool
is_newline c = eqb (code c) 10

abbrev drop_newline : String → String
drop_newline String.[] = ""
drop_newline (String.◌∷◌ c s) = s

abbrev starts_line : String → Bool
starts_line String.[] = true
starts_line (String.◌∷◌ c s) = is_newline c

-- `\r\n` becomes `\n`, and a `\r` before the end is dropped.
unfoldable pub normalize_newlines : String → String
normalize_newlines String.[] = ""
normalize_newlines (String.◌∷◌ c s) =
    let rest = normalize_newlines s in
    if eqb (code c) 13 && starts_line s then rest else String.◌∷◌ c rest

-- Where the reader stands: before a record, before a field, in a field without quotes, between
-- quotes, or behind the second quote.
pub data Mode : Type 0 where
  at_record at_field in_field in_quotes after_quote : Mode

pub record Scanner : Type 0 where
  pub mode : Mode
  pub word : String
  pub row : List String
  pub rows : List (List String)

abbrev pub end_field : Scanner → Scanner
end_field s = record s { mode = at_field; word = ""; row = s.row ++ s.word ∷ [] }

-- as many fields as in the first record
abbrev fits : List (List String) → List String → Bool
fits [] row = true
fits (first ∷ _) row = eqb (length row) (length first)

abbrev pub end_record : Scanner → Result Scanner
end_record s =
    let row = s.row ++ s.word ∷ [] in
    if fits s.rows row
    then ok (record { mode = at_record; word = ""; row = []; rows = s.rows ++ row ∷ [] })
    else err (message "wrong number of fields")

abbrev pub push : Mode → Char → Scanner → Scanner
push mode c s = record s { mode = mode; word = s.word +++ of_char c }

abbrev enter : Mode → Scanner → Scanner
enter mode s = record s { mode = mode }

field_start : Char → Scanner → Result Scanner
field_start c s =
    if is_newline c
    then end_record s
    else (if is_space c
        then ok (enter at_field s)
        else (if eqb (code c) b'"'
            then ok (enter in_quotes s)
            else (if eqb (code c) b',' then ok (end_field s) else ok (push in_field c s))))

in_plain : Char → Scanner → Result Scanner
in_plain c s =
    if is_newline c
    then end_record s
    else (if eqb (code c) b','
        then ok (end_field s)
        else (if eqb (code c) b'"'
            then err (message "bare \" in non-quoted-field")
            else ok (push in_field c s)))

behind_quote : Char → Scanner → Result Scanner
behind_quote c s =
    if eqb (code c) b'"'
    then ok (push in_quotes c s)
    else (if eqb (code c) b','
        then ok (end_field s)
        else (if is_newline c
            then end_record s
            else err (message "extraneous or missing \" in quoted-field")))

in_mode : Mode → Char → Scanner → Result Scanner
unfolding field_start in_plain behind_quote
in_mode at_record c s = if is_newline c then ok s else field_start c s
in_mode at_field c s = field_start c s
in_mode in_field c s = in_plain c s
in_mode in_quotes c s =
    if eqb (code c) b'"' then ok (enter after_quote s) else ok (push in_quotes c s)
in_mode after_quote c s = behind_quote c s

unfoldable pub step : Char → Scanner → Result Scanner
unfolding in_mode
step c s = in_mode s.mode c s

abbrev pub rows_of : Result Scanner → Result (List (List String))
rows_of (ok s) = ok s.rows
rows_of (err e) = err e

finish_in : Mode → Scanner → Result (List (List String))
finish_in at_record s = ok s.rows
finish_in at_field s = rows_of (end_record s)
finish_in in_field s = rows_of (end_record s)
finish_in in_quotes s = err (message "extraneous or missing \" in quoted-field")
finish_in after_quote s = rows_of (end_record s)

unfoldable pub finish : Scanner → Result (List (List String))
unfolding finish_in
finish s = finish_in s.mode s

unfoldable pub scan : Result Scanner → String → Result (List (List String))
unfolding finish step
scan (err e) t = err e
scan (ok s) String.[] = finish s
scan (ok s) (String.◌∷◌ c t) = scan (step c s) t

abbrev pub first_scanner : Scanner
first_scanner = record { mode = at_record; word = ""; row = []; rows = [] }

-- `ReadAll`: the first error means that there is no result.
unfoldable pub read_all : String → Result (List (List String))
unfolding scan normalize_newlines
read_all t = scan (ok first_scanner) (normalize_newlines t)

csv_tests :
    (read_all "a, b\r\n\n1,\"x,\"\"y\"\"\n\""
      ≡ ok (("a" ∷ "b" ∷ []) ∷ ("1" ∷ "x,\"y\"\n" ∷ []) ∷ []))
    × (read_all "a,b\n1" ≡ err (message "wrong number of fields"))
    × (read_all "a\"b" ≡ err (message "bare \" in non-quoted-field"))
    × (read_all "a,\n" ≡ ok (("a" ∷ "" ∷ []) ∷ []))
unfolding read_all
csv_tests = (refl, refl, refl, refl)
