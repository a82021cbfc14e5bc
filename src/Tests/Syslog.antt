-- ===== src/Tests/Syslog.antt =====
-- Lines that the syslog parser meets.
use log_morph.Common.{String, ◌≡◌, ◌↔◌, Bool, false, refl, none, some, ok}
use log_morph.Common.Integer.{pos}
use log_morph.Common.Integer.Atoi.{atoi}
use log_morph.Common.GoMap.{get, put}
use log_morph.Common.Text.{ascii, trim_space, to_lower, to_upper, fields, decimal}
use log_morph.Models.{RawEvent, ParsedEvent}
use log_morph.Parsing.Syslog.{syslog_parse}
use log_morph.Parsing.Syslog.Timestamp.{syslog_timestamp}
use log_morph.Parsing.Syslog.KeyValues.{match_header, find_pairs, split_ip_and_port}
use log_morph.Detection.Patterns.{has_timestamp, has_key}
use log_morph.Detection.Detect.{
  detect, detect_content, looks_like_csv, looks_like_json, looks_like_syslog,
}
use log_morph.Detection.Detect.Outcomes.{detected_syslog_parses}
use log_morph.Common.Csv.{read_all}
use log_morph.Tests.Fixtures.{sample_event, readings}

abbrev line : RawEvent
line = record sample_event {
  source = "";
  payload = "<134>Aug 28 18:30:12 fw-1 DENY TCP SRC=10.0.0.1:80 DST=10.0.0.2 SPT=81 DPT=x\n";
}

denied :
    syslog_parse ascii readings line
    ≡ ok (
        some (record {
          timestamp = "2026-08-28T18:30:12Z";
          source = record {
            type = "firewall";
            vendor = "generic";
            product = "syslog-firewall";
            identifier = "fw-1";
          };
          event = record { category = "network"; action = "deny"; severity = "high" };
          network = some (record {
            src_ip = "10.0.0.1";
            src_port = some (pos 81);
            dst_ip = "10.0.0.2";
            dst_port = none;
            protocol = "TCP";
          });
          user = some (record { username = none });
        }))
unfolding syslog_parse trim_space to_lower to_upper fields decimal get put atoi syslog_timestamp
    match_header find_pairs split_ip_and_port
denied = refl

-- A day of one digit, as in RFC 3164, is replaced by the time of the clock.
day_lost : syslog_timestamp readings "Aug  8 18:30:12" ≡ "2026-01-02T03:04:06Z"
unfolding syslog_timestamp to_lower decimal
day_lost = refl

computes : Unit {0}
unfolding syslog_parse trim_space to_lower to_upper fields decimal get put atoi syslog_timestamp
    match_header find_pairs split_ip_and_port detect detect_content looks_like_csv looks_like_json
    looks_like_syslog has_timestamp has_key read_all
computes = tt

abbrev unmarked : RawEvent
unmarked = record line { format = "" }

abbrev never : String → Bool
never s = false

detected_syslog_parses_example :
    (e : ParsedEvent) × (syslog_parse ascii readings unmarked ≡ ok (some e))
    × ((e.event.severity ≡ "high") ↔ (e.event.action ≡ "deny"))
unfolding computes
detected_syslog_parses_example = detected_syslog_parses ascii never readings unmarked refl
