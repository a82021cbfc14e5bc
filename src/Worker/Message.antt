-- ===== src/Worker/Message.antt =====
-- `processSingleMessageIdempotent` and `ack`
pub mod Gates
pub mod Delivery
pub mod Cancellation
use log_morph.Common.{
  String, Bool, true, false, Option, none, some, List, [], ◌∷◌, Error, Result, ok, err,
}
use log_morph.Buffer.{RawMessage}
use log_morph.Idempotency.{IdempotencyStore}
use log_morph.Worker.{Worker, World, Environment}
use log_morph.Worker.Action.{Action, pure, ◌>>=◌, ◌>>◌, on_buffer, on_idem}
use log_morph.Worker.Pipeline.{PipelineResult, process_single_event}

-- what the idempotency checks have found
pub data Gate : Type 0 where
  already_done locked_elsewhere owned : Gate

-- `claimed`, which an error sets to true
abbrev gate_of_claim : Result Bool → Gate
gate_of_claim (ok false) = locked_elsewhere
gate_of_claim (ok true) = owned
gate_of_claim (err _) = owned

module _ {B I R : Type 0} (env : Environment) (w : Worker B I R) where
  claim : IdempotencyStore I → String → Action B I R Gate
  claim store event_id = do
    claimed ← on_idem (store.try_claim_processing event_id w.lock_ttl)
    pure (gate_of_claim claimed)

  after_is_done : IdempotencyStore I → String → Result Bool → Action B I R Gate
  unfolding claim
  after_is_done store event_id (ok true) = pure already_done
  after_is_done store event_id (ok false) = claim store event_id
  after_is_done store event_id (err _) = claim store event_id

  unfoldable pub check_gate : Option (IdempotencyStore I) → String → Action B I R Gate
  unfolding after_is_done
  check_gate none event_id = pure owned
  check_gate (some store) event_id = do
    done ← on_idem (store.is_done event_id)
    after_is_done store event_id done

  -- The error of `Ack` is only logged.
  unfoldable pub ack : RawMessage → Action B I R (Unit {0})
  ack msg = do on_buffer (w.buffer.ack w.stream_name w.group_name (msg.id ∷ [])); pure tt

  release : Option (IdempotencyStore I) → String → Action B I R (Unit {0})
  release none event_id = pure tt
  release (some store) event_id = do on_idem (store.release_processing event_id); pure tt

  mark_done : Option (IdempotencyStore I) → String → Action B I R (Unit {0})
  mark_done none event_id = pure tt
  mark_done (some store) event_id = do on_idem (store.mark_done event_id w.done_ttl); pure tt

  unfoldable pub settle : RawMessage → Result PipelineResult → Action B I R (Unit {0})
  unfolding release mark_done ack
  settle msg (err _) = release w.idempotency msg.event.event_id
  settle msg (ok _) = do mark_done w.idempotency msg.event.event_id; ack msg

  unfoldable pub after_gate : RawMessage → Gate → Action B I R (Unit {0})
  unfolding settle
  after_gate msg already_done = ack msg
  after_gate msg locked_elsewhere = pure tt
  after_gate msg owned = do outcome ← process_single_event env w msg.event; settle msg outcome

  unfoldable pub process_message : RawMessage → Action B I R (Unit {0})
  unfolding check_gate after_gate
  process_message msg = do gate ← check_gate w.idempotency msg.event.event_id; after_gate msg gate
