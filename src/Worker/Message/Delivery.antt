-- ===== src/Worker/Message/Delivery.antt =====
-- What one delivery of a message does, over an idempotency store that keeps its contract.
use log_morph.Common.{
  String, ◌≡◌, true, false, some, ok, err, arith, Result, Error, [], ◌∷◌, ◌∙◌, ap, ◌==◌, eq_iff,
  eq_refl, if◌then◌else◌,
}
use log_morph.Buffer.{RawMessage}
use log_morph.Idempotency.{IdempotencyStore}
use log_morph.Idempotency.Lawful.{Views, IsLawful}
use log_morph.Worker.{Worker, World, Environment}
use log_morph.Worker.Pipeline.{PipelineResult, process_single_event}
use log_morph.Worker.Pipeline.Frame.{process_frame}
use log_morph.Worker.Message.{ack, settle, process_message}
use log_morph.Worker.Message.Gates.{claimed_world, gate_done, gate_locked, gate_owned}

-- the buffer after `XACK` of the message alone
abbrev pub acked : {B I R : Type 0} → Worker B I R → RawMessage → B → B
acked w msg b = (w.buffer.ack w.stream_name w.group_name (msg.id ∷ []) b).1

-- the worker with this idempotency store
abbrev pub guarded : {B I R : Type 0} → Worker B I R → IdempotencyStore I → Worker B I R
guarded w store = record w { idempotency = some store }

module _ {B I R : Type 0} {store : IdempotencyStore I} {v : Views I} (law : IsLawful store v)
    (id : String) where
  -- No acknowledgement, no new marker, and every lock as before: a later delivery starts afresh.
  pub record IsRetriable (s t : World B I R) : Type 0 where
    pub buffer : t.buffer ≡ s.buffer
    pub markers : (j : String) → v.done t.idem j ≡ v.done s.idem j
    pub locks : (j : String) → v.locked t.idem j ≡ v.locked s.idem j

  -- The event is marked, the buffer has been told once, and other events' locks are as before.
  pub record IsDelivered (after_ack : B) (s t : World B I R) : Type 0 where
    pub buffer : t.buffer ≡ after_ack
    pub markers : (j : String) → v.done t.idem j ≡ (if id == j then true else v.done s.idem j)
    pub locks : (j : String) → (id == j) ≡ false → v.locked t.idem j ≡ v.locked s.idem j

module _ {B I R : Type 0} (env : Environment) (w : Worker B I R) (store : IdempotencyStore I)
    {v : Views I} (law : IsLawful store v) (msg : RawMessage) (s : World B I R) where
  -- A message whose event is marked done is acknowledged, and nothing else changes: the pipeline
  -- does not run.
  pub done_only_acks :
      v.done s.idem msg.event.event_id ≡ true
      → (process_message env (guarded w store) msg s).1 ≡ record s { buffer = acked w msg s.buffer }
  unfolding process_message ack
  done_only_acks h = rw (gate_done env (guarded w store) store law msg.event.event_id s h)

  -- A message whose event is locked and not done changes nothing and is not acknowledged.
  pub locked_changes_nothing :
      v.done s.idem msg.event.event_id ≡ false
      → v.locked s.idem msg.event.event_id ≡ true
      → (process_message env (guarded w store) msg s).1 ≡ s
  unfolding process_message
  locked_changes_nothing h l =
      rw (gate_locked env (guarded w store) store law msg.event.event_id s h l)

  abbrev id : String
  id = msg.event.event_id

  -- the run of the pipeline under the lock
  abbrev pub guarded_run : Result PipelineResult × World B I R
  guarded_run =
      process_single_event env (guarded w store) msg.event
        (claimed_world env (guarded w store) store law id s)

  module _ (fresh : v.done s.idem id ≡ false) (free : v.locked s.idem id ≡ false) where
    process_owned :
        process_message env (guarded w store) msg s
        ≡ settle env (guarded w store) msg guarded_run.0 guarded_run.1
    unfolding process_message
    process_owned = rw (gate_owned env (guarded w store) store law id s fresh free)

    same_idem : guarded_run.1.idem ≡ (store.try_claim_processing id w.lock_ttl s.idem).1
    same_idem = (process_frame env (guarded w store) msg.event _).1

    same_buffer : guarded_run.1.buffer ≡ s.buffer
    same_buffer = (process_frame env (guarded w store) msg.event _).0

    -- Over an idempotency store none of whose calls fails (`IsLawful`), for an event that is neither
    -- done nor locked: a pipeline error leaves the message for a retry. It is not acknowledged, nothing
    -- is marked done, and the lock that was taken is free again.
    pub failed-IsRetriable :
        {e : Error}
        → guarded_run.0 ≡ err e
        → IsRetriable law id s (process_message env (guarded w store) msg s).1
    unfolding settle
    failed-IsRetriable failed =
        rw (process_owned, failed)
          (record {
            buffer = same_buffer;
            markers = λ j. rw (law.release_done, same_idem, law.claim_done);
            locks = λ j.
                rw (law.release_locked, same_idem, law.claim_locked) (ground (arith, eq_iff id j));
          })

    -- Over an idempotency store none of whose calls fails (`IsLawful`), for an event that is neither
    -- done nor locked: if the pipeline returns a result, valid or not, the event is marked done, the
    -- message is acknowledged once, and the markers and locks of other events are as before.
    pub succeeded-IsDelivered :
        {r : PipelineResult}
        → guarded_run.0 ≡ ok r
        → IsDelivered law id
            (acked w msg s.buffer)
            s
            (process_message env (guarded w store) msg s).1
    unfolding settle ack
    succeeded-IsDelivered done =
        rw (process_owned, done)
          (record {
            buffer = ap (acked w msg) same_buffer;
            markers = λ j. rw (law.mark_done_lem, same_idem, law.claim_done);
            locks = λ j ne.
                rw (law.mark_done_others id w.done_ttl _ j ne, same_idem, law.claim_locked, ne);
          })

-- Over an idempotency store none of whose calls fails (`IsLawful`), after a successful delivery of an
-- event that was neither done nor locked: delivering the same message again only acknowledges it: the raw
-- store, the markers, the locks and the context are as the first delivery left them.
pub redelivery_only_acks :
    {B I R : Type 0} (env : Environment) (w : Worker B I R) (store : IdempotencyStore I)
    {v : Views I} (law : IsLawful store v) (msg : RawMessage) (s : World B I R)
    → v.done s.idem msg.event.event_id ≡ false
    → v.locked s.idem msg.event.event_id ≡ false
    → (r : PipelineResult) → (guarded_run env w store law msg s).0 ≡ ok r
    → let t = (process_message env (guarded w store) msg s).1 in
      (process_message env (guarded w store) msg t).1
      ≡ record t { buffer = acked w msg (acked w msg s.buffer) }
redelivery_only_acks env w store {v = v} law msg s fresh free r done =
    let d = succeeded-IsDelivered env w store law msg s fresh free done in
    let t = (process_message env (guarded w store) msg s).1 in
    let marked : v.done t.idem msg.event.event_id ≡ true =
      d.markers msg.event.event_id ∙ rw (eq_refl msg.event.event_id) in
    done_only_acks env w store law msg t marked
    ∙ ap (λ b. record t { buffer = acked w msg b }) d.buffer
