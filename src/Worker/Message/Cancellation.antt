-- ===== src/Worker/Message/Cancellation.antt =====
-- `processSingleMessageIdempotent` does not put off the cancellation of the context.
use log_morph.Common.{
  String, ◌≡◌, refl, sym, Bool, true, false, Option, none, some, Result, ok, err,
}
use log_morph.Context.{IsNoLater, IsNoLater-refl, IsNoLater-from}
use log_morph.Buffer.{RawMessage}
use log_morph.Idempotency.{IdempotencyStore}
use log_morph.Worker.{Worker, World, Environment}
use log_morph.Worker.Pipeline.{PipelineResult}
use log_morph.Worker.Pipeline.Cancellation.{KeepsContext, process_single_event-IsNoLater}
use log_morph.Worker.Message.{
  claim, after_is_done, check_gate, ack, release, mark_done, settle, Gate, already_done,
  locked_elsewhere, owned, after_gate, process_message,
}

module _ {B I R : Type 0} (env : Environment) (w : Worker B I R) where
  after_is_done_ctx :
      (store : IdempotencyStore I) (id : String) (r : Result Bool) (s : World B I R)
      → (after_is_done env w store id r s).1.ctx ≡ s.ctx
  unfolding after_is_done claim
  after_is_done_ctx store id (ok true) s = refl
  after_is_done_ctx store id (ok false) s = refl
  after_is_done_ctx store id (err _) s = refl

  check_gate_ctx :
      (store : Option (IdempotencyStore I)) (id : String) (s : World B I R)
      → (check_gate env w store id s).1.ctx ≡ s.ctx
  unfolding check_gate
  check_gate_ctx none id s = refl
  check_gate_ctx (some store) id s = after_is_done_ctx store id _ _

  release_ctx :
      (store : Option (IdempotencyStore I)) (id : String) (s : World B I R)
      → (release env w store id s).1.ctx ≡ s.ctx
  unfolding release
  release_ctx none id s = refl
  release_ctx (some store) id s = refl

  mark_done_ctx :
      (store : Option (IdempotencyStore I)) (id : String) (s : World B I R)
      → (mark_done env w store id s).1.ctx ≡ s.ctx
  unfolding mark_done
  mark_done_ctx none id s = refl
  mark_done_ctx (some store) id s = refl

  settle_ctx :
      (msg : RawMessage) (r : Result PipelineResult) (s : World B I R)
      → (settle env w msg r s).1.ctx ≡ s.ctx
  unfolding settle ack
  settle_ctx msg (ok _) s = mark_done_ctx w.idempotency _ s
  settle_ctx msg (err _) s = release_ctx w.idempotency _ s

  module _ (keeps : KeepsContext w) where
    after_gate_ctx :
        (msg : RawMessage) (g : Gate) (s : World B I R)
        → IsNoLater s.ctx (after_gate env w msg g s).1.ctx
    unfolding after_gate ack
    after_gate_ctx msg already_done s = IsNoLater-refl s.ctx
    after_gate_ctx msg locked_elsewhere s = IsNoLater-refl s.ctx
    after_gate_ctx msg owned s =
        rw (settle_ctx) (process_single_event-IsNoLater env w keeps msg.event s)

    pub process_message-IsNoLater :
        (msg : RawMessage) (s : World B I R) → IsNoLater s.ctx (process_message env w msg s).1.ctx
    unfolding process_message
    process_message-IsNoLater msg s =
        IsNoLater-from _ _ _ (sym (check_gate_ctx w.idempotency msg.event.event_id s))
          (after_gate_ctx msg _ _)
