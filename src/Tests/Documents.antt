-- ===== src/Tests/Documents.antt =====
-- Documents that the detector and the parsers meet.
use package.text.Mathlib.TextLemmas.{cons≢nil}
use log_morph.Common.{
  String, ◌≡◌, ◌≢◌, ◌↔◌, refl, Bool, false, none, some, List, [], ◌∷◌, Result, ok, err, message,
  ◌==◌, if◌then◌else◌,
}
use log_morph.Common.Csv.{read_all}
use log_morph.Common.Integer.{pos}
use log_morph.Common.Integer.Atoi.{atoi}
use log_morph.Common.Text.{ascii, trim_space, to_lower, to_upper}
use log_morph.Common.GoMap.{get, put}
use log_morph.Context.{background}
use log_morph.Models.{RawEvent, ParsedEvent, stable}
use log_morph.Detection.Patterns.{has_timestamp, has_key}
use log_morph.Detection.Detect.{
  detect, detect_content, looks_like_csv, looks_like_json, looks_like_syslog,
}
use log_morph.Detection.Detect.Outcomes.{stable_iff_detected}
use log_morph.Detection.Drift.{analyze}
use log_morph.Parsing.Json.Schema.{JsonLogSchema, null, number, text}
use log_morph.Parsing.Json.{json_parse}
use log_morph.Parsing.Json.Fields.{IsReadOf, json_parse_exact}
use log_morph.Parsing.Csv.{csv_parse}
use log_morph.Parsing.Csv.Documents.{IsRead, value_of, csv_document_parses}
use log_morph.Tests.Fixtures.{sample_event, readings}

abbrev never : String → Bool
never s = false

abbrev pub csv_raw : RawEvent
csv_raw = record sample_event {
  format = "";
  payload = "src_ip,action,src_port\n10.0.0.1,DENY,443\n";
}

abbrev header : List String
header = "action" ∷ "src_port" ∷ []

abbrev row : List String
row = "DENY" ∷ "443" ∷ []

computes : Unit {0}
unfolding read_all atoi trim_space to_lower to_upper get put has_timestamp has_key detect
    detect_content looks_like_csv looks_like_json looks_like_syslog csv_parse json_parse analyze
computes = tt

detected : detect ascii never csv_raw.payload "" ≡ record {
  format = "csv";
  source_type = "firewall";
  confidence = 90;
  reason = "CSV column structure with recognized headers detected";
}
unfolding computes
detected = refl

csv_document_parses_example :
    (e : ParsedEvent) × (csv_parse ascii readings csv_raw ≡ ok (some e))
    × IsRead ascii (value_of ascii ("src_ip" ∷ header) ("10.0.0.1" ∷ row)) e
unfolding computes
csv_document_parses_example =
    csv_document_parses ascii readings csv_raw "src_ip" header "10.0.0.1" row refl refl refl refl

stable_iff_detected_example :
    ((analyze ascii csv_raw (detect ascii never "{" "") background).0.status ≡ stable)
    ↔ ((detect ascii never "{" "").format ≢ "unknown")
stable_iff_detected_example = stable_iff_detected ascii never "{" "" csv_raw background refl

-- a document with a nested and a flat address, and what a decoder makes of it
abbrev json_raw : RawEvent
json_raw = record sample_event { payload = " {\"action\":\"BLOCK\"} " }

abbrev document : JsonLogSchema
document = record {
  timestamp = "";
  source = none;
  firewall = none;
  network = some (record {
    protocol = "";
    src_ip = "10.0.0.2";
    src_port = null;
    dst_ip = "";
    dst_port = text " 53 ";
    source = some (record { ip = ""; port = number (pos 4000) });
    destination = none;
  });
  user = none;
  action = "BLOCK";
  protocol = "udp";
  category = "";
  severity = "";
  src_ip = "10.0.0.1";
  src_port = number (pos 1);
  dst_ip = "";
  dst_port = null;
  source_ip = "";
  destination_ip = "10.0.0.9";
  source_port = null;
  destination_port = null;
}

abbrev unmarshal : String → Result JsonLogSchema
unmarshal s =
    if s == "{\"action\":\"BLOCK\"}" then ok document else err (message "invalid character")

not_blank : trim_space json_raw.payload ≢ ""
unfolding trim_space
not_blank h = absurd (cons≢nil h)

json_parse_exact_example :
    (e : ParsedEvent) × (json_parse ascii unmarshal readings json_raw ≡ ok (some e))
    × IsReadOf ascii document e
unfolding computes
json_parse_exact_example =
    json_parse_exact ascii unmarshal readings json_raw document not_blank refl
