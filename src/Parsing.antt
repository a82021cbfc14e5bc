-- ===== src/Parsing.antt =====
-- internal/parsing: the parser interface, the registry and the engine
pub mod Lookup
pub mod Json
pub mod Csv
pub mod Syslog
use log_morph.Common.{
  String, Option, none, some, Result, ok, err, message, in_context, ◌>>=◌, ◌==◌, if◌then◌else◌,
}
use log_morph.Common.Text.{Unicode, ◌+++◌, trim_space, to_lower}
use log_morph.Common.GoMap.{Map, empty, get, put}
use log_morph.Models.{RawEvent, ParsedEvent, DetectionResult, Readings}

-- parser.go. `Parse` may return a nil event beside a nil error.
pub record Parser : Type 0 where
  pub format : String
  pub parse : Readings → RawEvent → Result (Option ParsedEvent)

-- registry.go. The lock makes `Register` and `Get` atomic.
pub record Registry : Type 0 where
  pub parsers : Map Parser

abbrev pub new_registry : Registry
new_registry = record { parsers = empty }

module _ (u : Unicode) where
  unfoldable pub normalize_format : String → String
  normalize_format format = to_lower u (trim_space format)

  unfoldable pub register : Registry → Option Parser → Registry
  register r none = r
  register r (some parser) =
      let key = normalize_format parser.format in
      if key == "" then r else record { parsers = put r.parsers key parser }

  abbrev found : String → Option Parser → Result Parser
  found format none = err (message ("no parser registered for format: " +++ format))
  found format (some p) = ok p

  -- `Get`
  unfoldable pub get_parser : Registry → String → Result Parser
  get_parser r format =
      let key = normalize_format format in
      if key == "" then err (message "format cannot be empty") else found format (get r.parsers key)

  -- engine.go
  unfoldable pub engine_parse :
      Registry → Readings → RawEvent → DetectionResult → Result (Option ParsedEvent)
  engine_parse registry now raw detection = do
    parser ← in_context "parser selection failed" (get_parser registry detection.format)
    in_context ("parsing failed for format " +++ detection.format) (parser.parse now raw)
