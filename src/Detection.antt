-- ===== src/Detection.antt =====
-- internal/detection: the interfaces of the format detector and of the drift detector
pub mod Drift
pub mod Patterns
pub mod Detect
use log_morph.Common.{String, Option, Error}
use log_morph.Context.{Context}
use log_morph.Models.{RawEvent, DetectionResult, DriftResult}

abbrev pub format_syslog : String
format_syslog = "syslog"

abbrev pub format_json : String
format_json = "json"

abbrev pub format_csv : String
format_csv = "csv"

abbrev pub format_unknown : String
format_unknown = "unknown"

-- `Detector`
pub record Detector : Type 0 where
  pub detect : (payload hint : String) → DetectionResult

-- `DriftDetector`. A result comes back beside an error too.
pub record DriftDetector : Type 0 where
  pub analyze : RawEvent → DetectionResult → Context → DriftResult × Option Error × Context
