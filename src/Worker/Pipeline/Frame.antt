-- ===== src/Worker/Pipeline/Frame.antt =====
-- What `ProcessSingleEvent` leaves alone, and what its result does not depend on.
use log_morph.Common.{◌≡◌, refl, Option, none, some, Result, ok, err, ◌∙◌, sym}
use log_morph.Models.{RawEvent, DetectionResult, DriftResult, ParsedEvent}
use log_morph.Storage.{RawEventStore}
use log_morph.Worker.{Worker, World, Environment}
use log_morph.Worker.Pipeline.{process_single_event, archive, drift, normalized, processed}

-- The worker with another raw store, or with none.
abbrev pub with_raw_store :
    {B I R : Type 0} → Worker B I R → Option (RawEventStore R) → Worker B I R
with_raw_store w store = record w { raw_store = store }

module _ {B I R : Type 0} (env : Environment) (w : Worker B I R) where
  -- the world after the archive step
  archive_frame :
      (store : Option (RawEventStore R)) (e : RawEvent) (s : World B I R)
      → ((archive env w store e s).1.buffer ≡ s.buffer)
        × ((archive env w store e s).1.idem ≡ s.idem)
        × ((archive env w store e s).1.calls ≡ s.calls)
        × ((archive env w store e s).1.ctx ≡ s.ctx)
  unfolding archive
  archive_frame none e s = (refl, refl, refl, refl)
  archive_frame (some store) e s = (refl, refl, refl, refl)

  normalized_frame :
      (e : RawEvent) (d : DetectionResult) (r : DriftResult) (p : Result (Option ParsedEvent))
      (s : World B I R)
      → ((normalized env w e d r p s).1.buffer ≡ s.buffer)
        × ((normalized env w e d r p s).1.idem ≡ s.idem)
        × ((normalized env w e d r p s).1.raws ≡ s.raws)
  unfolding normalized
  normalized_frame e d r (ok p) s = (refl, refl, refl)
  normalized_frame e d r (err x) s = (refl, refl, refl)

  -- The pipeline touches neither the buffer nor the idempotency store.
  pub process_frame :
      (e : RawEvent) (s : World B I R)
      → ((process_single_event env w e s).1.buffer ≡ s.buffer)
        × ((process_single_event env w e s).1.idem ≡ s.idem)
  unfolding process_single_event
  process_frame e s =
      let a = archive_frame w.raw_store e s in
      let n = normalized_frame _ _ _ _ _ in (n.0 ∙ a.0, n.1 ∙ a.1)

  -- The pipeline's raw store after the archive step is the final one.
  pub process_raws :
      (e : RawEvent) (s : World B I R)
      → (process_single_event env w e s).1.raws ≡ (archive env w w.raw_store e s).1.raws
  unfolding process_single_event
  process_raws e s = (normalized_frame _ _ _ _ _).2

module _ {B I R : Type 0} (env : Environment) (w : Worker B I R) where
  normalized_result :
      (x y : Option (RawEventStore R)) (e : RawEvent) (d : DetectionResult) (r : DriftResult)
      (p : Result (Option ParsedEvent)) (s t : World B I R)
      → s.calls ≡ t.calls
      → (normalized env (with_raw_store w x) e d r p s).0
        ≡ (normalized env (with_raw_store w y) e d r p t).0
  unfolding normalized
  normalized_result x y e d r (ok p) s t same = rw same
  normalized_result x y e d r (err _) s t same = refl

  processed_result :
      (x y : Option (RawEventStore R)) (e : RawEvent) (s t : World B I R)
      → s.calls ≡ t.calls
      → s.ctx ≡ t.ctx
      → (processed env (with_raw_store w x) e s).0 ≡ (processed env (with_raw_store w y) e t).0
  unfolding processed drift
  processed_result x y e s t same_calls same_ctx =
      rw (same_calls, same_ctx) (normalized_result x y e _ _ _ _ _ refl)

  -- What the pipeline returns for an event does not depend on the raw store: not on whether there
  -- is one, on what it holds, or on whether its `Put` fails.
  pub process_ignores_archive :
      (x y : Option (RawEventStore R)) (e : RawEvent) (s t : World B I R)
      → s.calls ≡ t.calls
      → s.ctx ≡ t.ctx
      → (process_single_event env (with_raw_store w x) e s).0
        ≡ (process_single_event env (with_raw_store w y) e t).0
  unfolding process_single_event
  process_ignores_archive x y e s t same_calls same_ctx =
      let a = archive_frame env (with_raw_store w x) x e s in
      let b = archive_frame env (with_raw_store w y) y e t in
      processed_result x y e _ _ (a.2 ∙ (same_calls ∙ sym b.2)) (a.3 ∙ (same_ctx ∙ sym b.3))
