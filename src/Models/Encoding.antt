-- ===== src/Models/Encoding.antt =====
-- `json.Marshal` and `json.Unmarshal` of a raw event, by the tags of internal/models/event.go
use log_morph.Common.{
  String, ◌≡◌, refl, sym, ap, ◌∙◌, [], ◌∷◌, Result, ok, err, ◌==◌, eq_iff, if◌then◌else◌,
  Bool-cases, inl, inr,
}
use log_morph.Common.Json.Strings.{quote}
use log_morph.Common.Json.Lexer.{lex}
use log_morph.Common.Json.Quoting.{lex-quote}
use log_morph.Common.Json.Parser.{parse}
use log_morph.Common.Json.Decode.{Fields, text_field, unmarshal}
use log_morph.Models.{RawEvent, EventJson, RoundTrips}

-- the name of a member, its value, and what follows
abbrev named : String → String → String → String
named k v rest = quote k (String.◌∷◌ ":" (quote v rest))

-- `omitempty`
abbrev unless_empty : String → String → String → String
unless_empty k v rest = if v == "" then rest else String.◌∷◌ "," (named k v rest)

unfoldable pub marshal_event : RawEvent → String
marshal_event e = String.◌∷◌ "{" (
    named "event_id" e.event_id (
      String.◌∷◌ "," (
        named "received_at" e.received_at (
          unless_empty "format" e.format
            (unless_empty "source" e.source (String.◌∷◌ "," (named "payload" e.payload "}")))))))

abbrev pub event_fields : Fields RawEvent
event_fields =
    ("event_id", text_field (λ e. e.event_id) (λ e s. record e { event_id = s }))
    ∷ ("received_at", text_field (λ e. e.received_at) (λ e s. record e { received_at = s }))
    ∷ ("format", text_field (λ e. e.format) (λ e s. record e { format = s }))
    ∷ ("source", text_field (λ e. e.source) (λ e s. record e { source = s }))
    ∷ ("payload", text_field (λ e. e.payload) (λ e s. record e { payload = s }))
    ∷ []

abbrev zero_event : RawEvent
zero_event = record { event_id = ""; received_at = ""; format = ""; source = ""; payload = "" }

unfoldable pub unmarshal_event : String → Result RawEvent
unfolding unmarshal
unmarshal_event s = unmarshal event_fields zero_event s

abbrev pub event_json : EventJson
event_json = record { marshal = λ e. ok (marshal_event e); unmarshal = unmarshal_event }

-- Every raw event is read back from what it is written as, whatever the texts in it.
pub unmarshal-marshal_event : (e : RawEvent) → unmarshal_event (marshal_event e) ≡ ok e
unfolding marshal_event unmarshal_event parse lex quote
unmarshal-marshal_event e =
    let id = lex-quote e.event_id in
    let at = lex-quote e.received_at in
    let format = lex-quote e.format in
    let source = lex-quote e.source in
    let payload = lex-quote e.payload in
    elim (Bool-cases (e.format == "")) [
      | inl no_format ↦
          let blank : String.[] ≡ e.format = sym ((eq_iff e.format "").0 no_format) in
          elim (Bool-cases (e.source == "")) [
            | inl no_source ↦
                let empty : String.[] ≡ e.source = sym ((eq_iff e.source "").0 no_source) in
                rw (no_format, no_source, id, at, payload)
                  (ap (λ f. ok (record e { format = f; source = "" })) blank
                    ∙ ap (λ t. ok (record e { source = t })) empty)
            | inr given ↦
                rw (no_format, given, id, at, source, payload)
                  (ap (λ f. ok (record e { format = f })) blank)
          ]
      | inr named ↦ elim (Bool-cases (e.source == "")) [
        | inl no_source ↦
            let empty : String.[] ≡ e.source = sym ((eq_iff e.source "").0 no_source) in
            rw (named, no_source, id, at, format, payload)
              (ap (λ t. ok (record e { source = t })) empty)
        | inr given ↦ rw (named, given, id, at, format, source, payload) refl
      ]
    ]

-- so the JSON code keeps the contract of its interface
pub event_json-RoundTrips : RoundTrips event_json
event_json-RoundTrips e p written = ap (λ r. and_then r) (sym written) ∙ unmarshal-marshal_event e
  where
    and_then : Result String → Result RawEvent
    and_then (ok t) = unmarshal_event t
    and_then (err x) = err x
