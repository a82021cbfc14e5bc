-- ===== src/Worker/Pipeline/Cancellation.antt =====
-- `ProcessSingleEvent` does not put off the cancellation of the context.
use log_morph.Common.{◌≡◌, refl, Option, none, some, Result, ok, err, sym}
use log_morph.Context.{Context, IsNoLater, IsNoLater-from}
use log_morph.Models.{RawEvent, DetectionResult, DriftResult, ParsedEvent}
use log_morph.Storage.{RawEventStore}
use log_morph.Worker.{Worker, World, Environment}
use log_morph.Worker.Pipeline.{process_single_event, archive, drift, normalized, processed}

-- A drift detector that does not put off the cancellation.
abbrev pub KeepsContext : {B I R : Type 0} → Worker B I R → Type 0
KeepsContext w =
    (e : RawEvent) (d : DetectionResult) (c : Context)
    → IsNoLater c (w.drift_detector.analyze e d c).2

module _ {B I R : Type 0} (env : Environment) (w : Worker B I R) (keeps : KeepsContext w) where
  archive_ctx :
      (store : Option (RawEventStore R)) (e : RawEvent) (s : World B I R)
      → (archive env w store e s).1.ctx ≡ s.ctx
  unfolding archive
  archive_ctx none e s = refl
  archive_ctx (some store) e s = refl

  normalized_ctx :
      (e : RawEvent) (d : DetectionResult) (r : DriftResult) (p : Result (Option ParsedEvent))
      (s : World B I R)
      → (normalized env w e d r p s).1.ctx ≡ s.ctx
  unfolding normalized
  normalized_ctx e d r (ok p) s = refl
  normalized_ctx e d r (err x) s = refl

  processed_ctx : (e : RawEvent) (s : World B I R) → IsNoLater s.ctx (processed env w e s).1.ctx
  unfolding processed drift
  processed_ctx e s = rw (normalized_ctx) (keeps e _ s.ctx)

  pub process_single_event-IsNoLater :
      (e : RawEvent) (s : World B I R) → IsNoLater s.ctx (process_single_event env w e s).1.ctx
  unfolding process_single_event
  process_single_event-IsNoLater e s =
      IsNoLater-from _ _ _ (sym (archive_ctx w.raw_store e s)) (processed_ctx e _)
