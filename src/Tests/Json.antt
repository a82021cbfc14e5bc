-- ===== src/Tests/Json.antt =====
-- The JSON code on concrete texts.
use log_morph.Common.{◌≡◌, refl, none, some, ok, err, Error, inl, inr}
use log_morph.Common.Integer.{pos}
use log_morph.Common.Integer.Atoi.{atoi}
use log_morph.Common.Json as Values
use log_morph.Common.Json.{Members, member, no_members}
use log_morph.Common.Json.Decode.{json_error}
use log_morph.Common.Json.Lexer.{lex}
use log_morph.Common.Json.Strings.{quote}
use log_morph.Common.Json.Parser.{valid}
use log_morph.Common.Text.{ascii, trim_space, to_lower, to_upper}
use log_morph.Detection.Detect.{detect}
use log_morph.Models.{RawEvent}
use log_morph.Models.Encoding.{marshal_event, unmarshal_event, unmarshal-marshal_event}
use log_morph.Parsing.Json.{json_parse}
use log_morph.Parsing.Json.Schema.{number, text, null}
use log_morph.Parsing.Json.Unmarshal.{unmarshal_log, empty_log}
use log_morph.Parsing.Json.Documents.{mistyped_fails, severity}
use log_morph.Tests.Fixtures.{sample_event, readings}

abbrev quoted_event : RawEvent
quoted_event = record sample_event { format = ""; payload = "<134>a=\"b\"\n" }

computes : Unit {0}
unfolding marshal_event unmarshal_event unmarshal_log valid lex quote atoi detect trim_space
    to_lower to_upper json_parse
computes = tt

written :
    marshal_event quoted_event
    ≡ "{\"event_id\":\"evt_1\",\"received_at\":\"2026-01-02T03:04:05Z\",\"source\":\"fw-1\",\"payload\":\"\\u003c134\\u003ea=\\\"b\\\"\\n\"}"
unfolding computes
written = refl

-- names in any case, a null that changes nothing, a name that no field has, and a name twice
read :
    unmarshal_event
      "{\"Event_ID\": \"1\", \"format\": null, \"x\": [], \"payload\": \"a\", \"payload\": \"b\"}"
    ≡ ok (record { event_id = "1"; received_at = ""; format = ""; source = ""; payload = "b" })
unfolding computes
read = refl

refused : unmarshal_event "{\"payload\": 1}" ≡ err json_error
unfolding computes
refused = refl

log_read :
    unmarshal_log atoi
      "{\"src_port\": 443, \"dst_port\": \"53\", \"network\": {\"src_ip\": \"::1\"}}"
    ≡ ok (record empty_log {
      src_port = number (pos 443);
      dst_port = text "53";
      network = some (record {
        protocol = "";
        src_ip = "::1";
        src_port = null;
        dst_ip = "";
        dst_port = null;
        source = none;
        destination = none;
      });
    })
unfolding computes
log_read = refl

unmarshal-marshal_event_example : unmarshal_event (marshal_event quoted_event) ≡ ok quoted_event
unmarshal-marshal_event_example = unmarshal-marshal_event quoted_event

abbrev object_event : RawEvent
object_event = record sample_event { payload = " {\"action\": \"deny\", \"severity\": 7} " }

mistyped_fails_example :
    (e : Error) × (json_parse ascii (unmarshal_log atoi) readings object_event ≡ err e)
unfolding computes
mistyped_fails_example =
    mistyped_fails ascii atoi readings object_event
      (member "action" (Values.text "deny") (member "severity" (Values.number "7") no_members)) refl
      (inr (inl (severity, refl, tt)))
