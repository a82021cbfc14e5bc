-- ===== src/Worker/Pipeline.antt =====
-- `ProcessSingleEvent`. Log lines are not modelled.
pub mod Frame
pub mod Cancellation
use log_morph.Common.{ℕ, String, Bool, Option, none, some, List, Error, Result, ok, err, in_context}
use log_morph.Models.{RawEvent, DetectionResult, DriftResult, ParsedEvent, UniversalEvent}
use log_morph.Validation.{ValidationError, ValidationResult}
use log_morph.Storage.{RawEventStore}
use log_morph.Worker.{Worker, World, Environment}
use log_morph.Worker.Action.{Action, pure, ◌>>=◌, ◌>>◌, on_raws, on_ctx, next_call}

pub record PipelineResult : Type 0 where
  pub event_id : String
  pub universal_event : UniversalEvent
  pub valid : Bool
  pub errors : List ValidationError
  pub drift : DriftResult

-- The drift result comes back with an error too; the error is only logged.
abbrev drift_of : DriftResult × Option Error → DriftResult
drift_of (r, _) = r

module _ {B I R : Type 0} (env : Environment) (w : Worker B I R) where
  -- The error of `Put` is only logged.
  pub archive : Option (RawEventStore R) → RawEvent → Action B I R (Unit {0})
  archive none raw_event = pure tt
  archive (some store) raw_event = do on_raws (store.put raw_event); pure tt

  drift : RawEvent → DetectionResult → Action B I R DriftResult
  drift raw_event detection = do
    analysis ← on_ctx (λ ctx.
        let (r, e, ctx') = w.drift_detector.analyze raw_event detection ctx in ((r, e), ctx'))
    pure (drift_of analysis)

  abbrev pipeline_result : UniversalEvent → DriftResult → PipelineResult
  pipeline_result event drift_res =
      let val = w.validator.validate event in
      record {
        event_id = event.event_id;
        universal_event = event;
        valid = val.valid;
        errors = val.errors;
        drift = drift_res;
      }

  abbrev validated : DriftResult → Result UniversalEvent → Result PipelineResult
  validated drift_res (err e) = err e
  validated drift_res (ok event) = ok (pipeline_result event drift_res)

  -- normalization and validation, after a parser that has returned
  normalized :
      RawEvent
      → DetectionResult
      → DriftResult
      → Result (Option ParsedEvent)
      → Action B I R (Result PipelineResult)
  normalized raw_event detection drift_res (err e) = pure (err e)
  normalized raw_event detection drift_res (ok parsed) = do
    n ← next_call
    pure (
        validated drift_res (
          in_context "normalization failed"
            (w.normalizer (env.clock n) (env.uuid n) raw_event parsed detection)))

  -- what follows the archive step: detection, drift, parsing, normalization, validation
  processed : RawEvent → Action B I R (Result PipelineResult)
  unfolding drift normalized
  processed raw_event = do
    let detection = w.detector.detect raw_event.payload raw_event.format
    drift_res ← drift raw_event detection
    n ← next_call
    normalized raw_event detection drift_res
        (in_context "parsing failed" (w.parser_engine (env.clock n) raw_event detection))

  unfoldable pub process_single_event : RawEvent → Action B I R (Result PipelineResult)
  unfolding archive processed
  process_single_event raw_event = do archive w.raw_store raw_event; processed raw_event
