-- ===== src/Detection/Drift.antt =====
-- internal/detection/drift.go
use log_morph.Common.{
  String, ◌≡◌, ◌↔◌, ◌⊎◌, not, ◌&&◌, ◌||◌, Option, none, some, Error, ◌≤◌, arith, ltb, ◌==◌, eq_iff,
  if◌then◌else◌,
}
use log_morph.Common.Text.{Unicode, ◌+++◌, trim_space, to_lower}
use log_morph.Context.{Context, poll, IsNoLater, poll-IsNoLater}
use log_morph.Models.{RawEvent, DetectionResult, DriftResult, stable, unknown, unset}
use log_morph.Detection.{format_syslog, format_json, format_csv}

abbrev zero_result : DriftResult
zero_result = record { status = unset; confidence = 0; message = ""; suggested_action = "" }

module _ (u : Unicode) where
  abbrev pub drift_format : DetectionResult → String
  drift_format detection = to_lower u (trim_space detection.format)

  unfoldable pub classify : DetectionResult → DriftResult
  classify detection =
      let format = drift_format detection in
      if (not (format == format_syslog)
          && not (format == format_json)
          && not (format == format_csv))
        || ltb detection.confidence 50
      then record {
        status = unknown;
        confidence = detection.confidence;
        message = "Unrecognized log schema structure; candidate for AI escalation";
        suggested_action = "escalate_to_ai";
      }
      else record {
        status = stable;
        confidence = detection.confidence;
        message = "Payload matches established " +++ format +++ " parser contract";
        suggested_action = "route_to_parser";
      }

  abbrev checked : Option Error → DriftResult → DriftResult × Option Error
  checked none r = (r, none)
  checked (some e) r = (zero_result, some e)

  -- `Analyze`
  unfoldable pub analyze :
      RawEvent → DetectionResult → Context → DriftResult × Option Error × Context
  unfolding classify
  analyze event detection ctx =
      let (canceled, ctx') = poll ctx in
      let (result, failed) = checked canceled (classify detection) in (result, failed, ctx')

  abbrev pub IsKnownFormat : String → Type 0
  IsKnownFormat f = (f ≡ format_syslog) ⊎ (f ≡ format_json) ⊎ (f ≡ format_csv)

  -- On a live context an event is stable exactly when its detected format is, after trimming and
  -- lowering, syslog, json or csv and the confidence is at least 0.5; otherwise it is unknown, and
  -- is marked for escalation. No event is ever a minor or a major drift.
  pub analyze_exact :
      (event : RawEvent) (detection : DetectionResult) (ctx : Context)
      → (poll ctx).0 ≡ none
      → let r = (analyze event detection ctx).0 in
        ((r.status ≡ stable)
          ↔ (IsKnownFormat (drift_format detection) × (50 ≤ detection.confidence)))
        × ((r.status ≡ stable) × (r.suggested_action ≡ "route_to_parser")
            ⊎ (r.status ≡ unknown) × (r.suggested_action ≡ "escalate_to_ai"))
  unfolding analyze
  analyze_exact event detection ctx live =
      let format = drift_format detection in
      (
        (
          ground (arith, eq_iff format "syslog", eq_iff format "json", eq_iff format "csv"),
          ground (arith, eq_iff format "syslog", eq_iff format "json", eq_iff format "csv"),
        ),
        ground arith,
      )

  pub analyze-IsNoLater :
      (event : RawEvent) (detection : DetectionResult) (ctx : Context)
      → IsNoLater ctx (analyze event detection ctx).2
  unfolding analyze
  analyze-IsNoLater event detection ctx = poll-IsNoLater ctx
