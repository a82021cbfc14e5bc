-- ===== src/Detection/Detect.antt =====
-- `Detect` of internal/detection/detector.go. `json.Valid` is a parameter, of
-- which `Common.Json.Parser.valid` is the model.
pub mod Outcomes
use log_morph.Common.{
  ℕ, String, Bool, true, false, ◌&&◌, ◌||◌, List, [], ◌∷◌, Result, ok, err, leb, ◌==◌, eqb, length,
  if◌then◌else◌,
}
use log_morph.Common.Csv.{read_all}
use log_morph.Common.Text.{Unicode, trim_space, to_lower, contains, has_prefix, has_suffix}
use log_morph.Models.{DetectionResult}
use log_morph.Detection.{Detector, format_syslog, format_json, format_csv, format_unknown}
use log_morph.Detection.Patterns.{has_timestamp, has_key}

abbrev pub firewall_log : String → ℕ → String → DetectionResult
firewall_log format confidence reason = record {
  format = format;
  source_type = "firewall";
  confidence = confidence;
  reason = reason;
}

abbrev pub unknown_log : String → DetectionResult
unknown_log reason = record {
  format = format_unknown;
  source_type = "unknown";
  confidence = 0;
  reason = reason;
}

module _ (u : Unicode) (json_valid : String → Bool) where
  abbrev is_header_name : String → Bool
  is_header_name c =
      c == "timestamp"
      || c == "time"
      || c == "action"
      || c == "act"
      || c == "protocol"
      || c == "proto"
      || c == "src_ip"
      || c == "dst_ip"
      || c == "src_port"
      || c == "dst_port"
      || c == "source"
      || c == "severity"
      || c == "ip"

  abbrev has_header_signals : List String → Bool
  has_header_signals [] = false
  has_header_signals (col ∷ cols) =
      is_header_name (to_lower u (trim_space col)) || has_header_signals cols

  abbrev pub are_csv_records : Result (List (List String)) → Bool
  are_csv_records (err _) = false
  are_csv_records (ok []) = false
  are_csv_records (ok (header ∷ [])) = false
  are_csv_records (ok (header ∷ (row ∷ rest))) =
      leb 2 (length header) && eqb (length header) (length row) && has_header_signals header

  unfoldable pub looks_like_json : String → Bool
  looks_like_json t =
      ((has_prefix t "{" && has_suffix t "}") || (has_prefix t "[" && has_suffix t "]"))
      && json_valid t

  unfoldable pub looks_like_csv : String → Bool
  looks_like_csv t = contains t "," && are_csv_records (read_all t)

  unfoldable pub looks_like_syslog : String → Bool
  looks_like_syslog t = has_timestamp t || has_key t

  -- the part of `Detect` behind the hint, on the trimmed payload
  unfoldable pub detect_content : String → DetectionResult
  unfolding looks_like_json looks_like_csv looks_like_syslog
  detect_content t =
      if t == ""
      then unknown_log "Payload is empty"
      else (if looks_like_json t
          then firewall_log format_json 95 "Valid JSON structure detected"
          else (if looks_like_csv t
              then firewall_log format_csv 90
                  "CSV column structure with recognized headers detected"
              else (if looks_like_syslog t
                  then firewall_log format_syslog 85
                      "Syslog timestamp or key-value pattern detected"
                  else unknown_log
                      "Unable to deterministically match syslog, json, or csv structure")))

  -- `Detect`
  unfoldable pub detect : String → String → DetectionResult
  unfolding detect_content
  detect payload hint =
      let cleaned_hint = to_lower u (trim_space hint) in
      if cleaned_hint == format_syslog
      then firewall_log format_syslog 100 "Format explicitly provided by caller as syslog"
      else (if cleaned_hint == format_json
          then firewall_log format_json 100 "Format explicitly provided by caller as json"
          else (if cleaned_hint == format_csv
              then firewall_log format_csv 100 "Format explicitly provided by caller as csv"
              else detect_content (trim_space payload)))

  abbrev pub default_detector : Detector
  default_detector = record { detect = detect }
