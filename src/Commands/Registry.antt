-- ===== src/Commands/Registry.antt =====
-- The three parsers that cmd/worker/main.go registers, against the formats that the detector reports.
use log_morph.Common.{
  String, ◌≡◌, refl, ◌∙◌, ◌↔◌, ap, sym, ◌≢◌, Bool, false, some, Result, ok, err, Error, message,
  arith, ◌==◌, eq_iff, if◌then◌else◌, inl, inr,
}
use log_morph.Common.Text.{Unicode, ◌+++◌, trim_space, to_lower}
use log_morph.Detection.{format_unknown, format_json, format_csv, format_syslog}
use log_morph.Detection.Detect.{detect}
use log_morph.Detection.Drift.{IsKnownFormat}
use log_morph.Detection.Detect.Outcomes.{detect-outcome, known_is_not_unknown}
use log_morph.Common.GoMap.{get}
use log_morph.Parsing.{Parser, Registry, new_registry, normalize_format, register, get_parser}
use log_morph.Parsing.Json.Schema.{JsonLogSchema}
use log_morph.Parsing.Json.{json_parser}
use log_morph.Parsing.Csv.{csv_parser}
use log_morph.Parsing.Syslog.{syslog_parser}
use log_morph.Parsing.Lookup.{get_parser-register}
use log_morph.Commands.Worker.{standard_registry}

module _ (u : Unicode) (unmarshal : String → Result JsonLogSchema) where
  -- the parser of a format that has been lowered and trimmed
  abbrev pub parser_for : String → String → Result Parser
  parser_for format key =
      if key == "csv"
      then ok (csv_parser u)
      else (if key == "json"
          then ok (json_parser u unmarshal)
          else (if key == "syslog"
              then ok (syslog_parser u)
              else (if key == ""
                  then err (message "format cannot be empty")
                  else err (message ("no parser registered for format: " +++ format)))))

  -- a parser whose format is its own key
  registered :
      (r : Registry) (p : Parser) (format : String)
      → normalize_format u p.format ≡ p.format
      → (p.format == "") ≡ false
      → get_parser u (register u r (some p)) format
        ≡ (if normalize_format u format == p.format then ok p else get_parser u r format)
  registered r p format own not_blank =
      let k = normalize_format u format in
      rw (get_parser-register, own)
        (ground (arith, not_blank, eq_iff p.format k, eq_iff k p.format, eq_iff k ""))

  unregistered :
      (format : String)
      → get_parser u new_registry format ≡ (
          if normalize_format u format == ""
          then err (message "format cannot be empty")
          else err (message ("no parser registered for format: " +++ format)))
  unfolding get_parser get
  unregistered format = refl

  own :
      (normalize_format u "csv" ≡ "csv")
      × (normalize_format u "json" ≡ "json")
      × (normalize_format u "syslog" ≡ "syslog")
  unfolding normalize_format to_lower trim_space
  own = (refl, refl, refl)

  -- The registry of the worker finds the syslog, JSON and CSV parsers under their formats, whatever
  -- the case and the outer white space, and under no other format any parser.
  pub standard_registry_exact :
      (format : String)
      → get_parser u (standard_registry u unmarshal) format
        ≡ parser_for format (normalize_format u format)
  unfolding standard_registry
  standard_registry_exact format =
      rw
        (
          registered _ (csv_parser u) format own.0 refl,
          registered _ (json_parser u unmarshal) format own.1 refl,
          registered _ (syslog_parser u) format own.2 refl,
          unregistered,
        )
        refl

  abbrev pub HasParser : String → Type 0
  HasParser format = (p : Parser) × (get_parser u (standard_registry u unmarshal) format ≡ ok p)

  known-HasParser : (f : String) → IsKnownFormat u f → HasParser f
  unfolding normalize_format to_lower trim_space
  known-HasParser f (inl h) = rw h (syslog_parser u, standard_registry_exact "syslog")
  known-HasParser f (inr (inl h)) = rw h (json_parser u unmarshal, standard_registry_exact "json")
  known-HasParser f (inr (inr h)) = rw h (csv_parser u, standard_registry_exact "csv")

  -- no parser for an unknown format
  pub unknown_has_none :
      get_parser u (standard_registry u unmarshal) format_unknown
      ≡ err (message "no parser registered for format: unknown")
  unfolding normalize_format to_lower trim_space
  unknown_has_none = standard_registry_exact format_unknown

  pub csv_registered : get_parser u (standard_registry u unmarshal) format_csv ≡ ok (csv_parser u)
  unfolding normalize_format to_lower trim_space
  csv_registered = standard_registry_exact format_csv

  pub syslog_registered :
      get_parser u (standard_registry u unmarshal) format_syslog ≡ ok (syslog_parser u)
  unfolding normalize_format to_lower trim_space
  syslog_registered = standard_registry_exact format_syslog

  pub json_registered :
      get_parser u (standard_registry u unmarshal) format_json ≡ ok (json_parser u unmarshal)
  unfolding normalize_format to_lower trim_space
  json_registered = standard_registry_exact format_json

  -- The worker's registry has a parser for what the detector reports exactly if that is not an
  -- unknown format, whatever the payload and the hint.
  pub HasParser-iff_detected :
      (json_valid : String → Bool) (payload hint : String)
      → HasParser (detect u json_valid payload hint).format
        ↔ ((detect u json_valid payload hint).format ≢ format_unknown)
  HasParser-iff_detected json_valid payload hint =
      let f = (detect u json_valid payload hint).format in
      elim (detect-outcome u json_valid payload hint) [
        | inl (known, _) ↦
            (λ _. known_is_not_unknown u json_valid f known, λ _. known-HasParser f known)
        | inr (format, _) ↦ (
          λ (p, found) _. not_both (
              sym unknown_has_none
              ∙ ap (get_parser u (standard_registry u unmarshal)) (sym format)
              ∙ found),
          λ h. absurd (h format),
        )
      ]
    where
      not_both : {e : Error} {p : Parser} → err e ≡ ok p → ⊥
      not_both h = cc
