-- ===== src/Parsing/Json/Documents.antt =====
-- What the JSON parser refuses: arrays, and objects with a member of another type than the schema's.
use log_morph.Common.{
  String, ◌≡◌, ◌⊎◌, none, Bool-cases, Result-cases, eq_iff, ◌>>=◌, refl, ap, ◌∙◌, false, Option,
  some, Result, ok, err, Error, ◌==◌, inl, inr, wrap,
}
use log_morph.Common.Integer.{ℤ}
use log_morph.Common.Text.{Unicode, trim_space}
use log_morph.Common.Json.{
  Json, Items, Members, no_members, member, null, boolean, number, text, array, object,
}
use log_morph.Common.Json.Lexer.{lex}
use log_morph.Common.Json.Parser.{parse}
use log_morph.Common.Json.Decode.{
  into_struct, into_text, set_field, json_error, from_json, unmarshal,
}
use log_morph.Models.{RawEvent, ParsedEvent, Readings}
use log_morph.Parsing.Json.Schema.{JsonLogSchema}
use log_morph.Parsing.Json.{json_parse, json_event, parsed}
use log_morph.Parsing.Json.Unmarshal.{unmarshal_log, log_fields, empty_log}

-- the members of type `string` at the top of `jsonLogSchema`
pub data TextName : Type 0 where
  timestamp action protocol category severity src_ip dst_ip source_ip destination_ip : TextName

abbrev pub name_of : TextName → String
name_of timestamp = "timestamp"
name_of action = "action"
name_of protocol = "protocol"
name_of category = "category"
name_of severity = "severity"
name_of src_ip = "src_ip"
name_of dst_ip = "dst_ip"
name_of source_ip = "source_ip"
name_of destination_ip = "destination_ip"

-- Neither a string nor null.
abbrev pub IsNoText : Json → Type 0
IsNoText null = ⊥
IsNoText (text _) = ⊥
IsNoText (boolean _) = Unit
IsNoText (number _) = Unit
IsNoText (array _) = Unit
IsNoText (object _) = Unit

-- A member that the schema has as a string is neither a string nor null.
abbrev pub IsMistyped : Members → Type 0
IsMistyped no_members = ⊥
IsMistyped (member k v ms) = ((n : TextName) × (k ≡ name_of n) × IsNoText v) ⊎ IsMistyped ms

abbrev text_set : Json → (String → JsonLogSchema) → String → Result JsonLogSchema
text_set v put old = do s ← into_text v old; ok (put s)

pub not_blank : (t : String) (v : Json) → parse t ≡ some v → (t == "") ≡ false
unfolding parse lex
not_blank t v h = elim (Bool-cases (t == "")) [
  | inr given ↦ given
  | inl blank ↦ absurd (nothing (rw ((eq_iff t "").0 blank) at h))
]
  where
    nothing : ◌≡◌ {A = Option Json} none (some v) → ⊥
    nothing same = cc

module _ (u : Unicode) (to_int : String → Option ℤ) where
  abbrev failure : Error
  failure = wrap "failed to unmarshal JSON" json_error

  abbrev decoded : Readings → RawEvent → Result JsonLogSchema → Result (Option ParsedEvent)
  decoded now raw (ok d) = ok (some (json_event u now raw d))
  decoded now raw (err e) = err (wrap "failed to unmarshal JSON" e)

  -- what a document is parsed as
  abbrev pub parsed_document : Readings → RawEvent → Json → Result (Option ParsedEvent)
  parsed_document now raw null = ok (some (json_event u now raw empty_log))
  parsed_document now raw (object ms) =
      decoded now raw (into_struct (log_fields to_int) empty_log ms)
  parsed_document now raw (boolean _) = err failure
  parsed_document now raw (number _) = err failure
  parsed_document now raw (text _) = err failure
  parsed_document now raw (array _) = err failure

  same_document :
      (now : Readings) (raw : RawEvent) (v : Json)
      → decoded now raw (from_json (log_fields to_int) empty_log (some v))
        ≡ parsed_document now raw v
  unfolding from_json
  same_document now raw null = refl
  same_document now raw (object ms) = refl
  same_document now raw (boolean _) = refl
  same_document now raw (number _) = refl
  same_document now raw (text _) = refl
  same_document now raw (array _) = refl

  same_result :
      (now : Readings) (raw : RawEvent) (r : Result JsonLogSchema)
      → parsed u (unmarshal_log to_int) now raw r ≡ decoded now raw r
  same_result now raw (ok d) = refl
  same_result now raw (err e) = refl

  json_parse-document :
      (now : Readings) (raw : RawEvent) (v : Json)
      → (trim_space raw.payload == "") ≡ false
      → parse (trim_space raw.payload) ≡ some v
      → json_parse u (unmarshal_log to_int) now raw ≡ parsed_document now raw v
  unfolding json_parse unmarshal_log unmarshal
  json_parse-document now raw v not_blank document = rw not_blank (
      same_result now raw _
      ∙ (ap (λ o. decoded now raw (from_json (log_fields to_int) empty_log o)) document
          ∙ same_document now raw v))

  -- an array
  pub array_fails :
      (now : Readings) (raw : RawEvent) (vs : Items)
      → parse (trim_space raw.payload) ≡ some (array vs)
      → json_parse u (unmarshal_log to_int) now raw ≡ err failure
  array_fails now raw vs document =
      json_parse-document now raw (array vs) (not_blank _ _ document) document

  rejected :
      (v : Json) (a : JsonLogSchema) (put : String → JsonLogSchema) (old : String)
      → IsNoText v
      → text_set v put old ≡ err json_error
  rejected null a put old h = absurd h
  rejected (text _) a put old h = absurd h
  rejected (boolean _) a put old h = refl
  rejected (number _) a put old h = refl
  rejected (array _) a put old h = refl
  rejected (object _) a put old h = refl

  set_fails :
      (n : TextName) (a : JsonLogSchema) (v : Json)
      → IsNoText v
      → set_field (log_fields to_int) a (name_of n) v ≡ err json_error
  unfolding set_field log_fields
  set_fails timestamp a v h = rejected v a _ _ h
  set_fails action a v h = rejected v a _ _ h
  set_fails protocol a v h = rejected v a _ _ h
  set_fails category a v h = rejected v a _ _ h
  set_fails severity a v h = rejected v a _ _ h
  set_fails src_ip a v h = rejected v a _ _ h
  set_fails dst_ip a v h = rejected v a _ _ h
  set_fails source_ip a v h = rejected v a _ _ h
  set_fails destination_ip a v h = rejected v a _ _ h

  struct_fails :
      (ms : Members) (a : JsonLogSchema)
      → IsMistyped ms
      → (e : Error) × (into_struct (log_fields to_int) a ms ≡ err e)
  unfolding into_struct
  struct_fails no_members a h = absurd h
  struct_fails (member k v ms) a (inl (n, named, wrong)) =
      (json_error, rw (named, set_fails n a v wrong) refl)
  struct_fails (member k v ms) a (inr later) =
      elim (Result-cases (set_field (log_fields to_int) a k v)) [
        | inl (b, set) ↦ let (e, fails) = struct_fails ms b later in (e, rw set fails)
        | inr (e, failed) ↦ (e, rw failed refl)
      ]

  -- If the payload, without the blanks around it, is a JSON object in which `timestamp`, `action`,
  -- `protocol`, `category`, `severity`, `src_ip`, `dst_ip`, `source_ip` or `destination_ip` is a number, a
  -- Boolean, an array or an object, the JSON parser fails, whatever the other members are.
  pub mistyped_fails :
      (now : Readings) (raw : RawEvent) (ms : Members)
      → parse (trim_space raw.payload) ≡ some (object ms)
      → IsMistyped ms
      → (e : Error) × (json_parse u (unmarshal_log to_int) now raw ≡ err e)
  mistyped_fails now raw ms document wrong =
      let (e, fails) = struct_fails ms empty_log wrong in
      (
        wrap "failed to unmarshal JSON" e,
        json_parse-document now raw (object ms) (not_blank _ _ document) document
            ∙ ap (decoded now raw) fails,
      )
