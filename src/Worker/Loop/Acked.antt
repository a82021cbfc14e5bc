-- ===== src/Worker/Loop/Acked.antt =====
-- What the run of `Start` acknowledges, over a buffer whose acknowledgements can be observed.
use log_morph.Common.{
  ℕ, String, ◌≡◌, ◌∙◌, ◌⊎◌, inl, inr, Bool, true, false, List, [], ◌∷◌, ok, err, Error, arith,
  eq_iff, Bool-cases, Result-cases, ap, sym, refl, Option, Result,
}
use log_morph.Common.Integer.{ℤ, is_above}
use log_morph.Buffer.{RawMessage, RawBuffer}
use log_morph.Idempotency.{IdempotencyStore}
use log_morph.Idempotency.Lawful.{Views, IsLawful}
use log_morph.Worker.{Worker, World, Environment}
use log_morph.Worker.Action.{Action}
use log_morph.Worker.Message.{process_message}
use log_morph.Worker.Message.Delivery.{
  guarded, guarded_run, acked, done_only_acks, locked_changes_nothing, failed-IsRetriable,
  succeeded-IsDelivered,
}
use log_morph.Worker.Loop.{start}
use log_morph.Worker.Loop.Invariant.{IsKept, AllOf, start-keeps}

-- Which message ids of a stream the group has acknowledged, and the id of the event that the stream
-- holds under a message id.
pub record AckView (B : Type 0) : Type 0 where
  pub is_acked : B → String → Bool
  pub event_of : B → String → String

-- Both are as in the other state.
pub record IsSameLog {B : Type 0} (v : AckView B) (s t : B) : Type 0 where
  pub acks : (j : String) → v.is_acked t j ≡ v.is_acked s j
  pub events : (j : String) → v.event_of t j ≡ v.event_of s j

-- An `Ack` of one id acknowledges no other and leaves the stream, `EnsureGroup` and the calls that
-- read change neither, and a message is delivered with the event that the stream holds under its id.
pub record TracksAcks {B : Type 0} (b : RawBuffer B) (stream group : String) (v : AckView B)
    : Type 0 where
  pub ack_only :
      (id : String) (s : B) (j : String)
      → v.is_acked (b.ack stream group (id ∷ []) s).1 j ≡ true
      → (id ≡ j) ⊎ (v.is_acked s j ≡ true)
  pub ack_events :
      (id : String) (s : B) (j : String)
      → v.event_of (b.ack stream group (id ∷ []) s).1 j ≡ v.event_of s j
  pub ensure_log : (s : B) → IsSameLog v s (b.ensure_group stream group s).1
  pub read_log :
      (consumer : String) (count block : ℤ) (s : B)
      → IsSameLog v s (b.read_group stream group consumer count block s).1
  pub claim_log :
      (consumer : String) (min_idle count : ℤ) (s : B)
      → IsSameLog v s (b.claim_pending stream group consumer min_idle count s).1
  pub read_events :
      (consumer : String) (count block : ℤ) (s : B)
      → AllOf
          (λ m. v.event_of s m.id ≡ m.event.event_id)
          (b.read_group stream group consumer count block s).0
  pub claim_events :
      (consumer : String) (min_idle count : ℤ) (s : B)
      → AllOf
          (λ m. v.event_of s m.id ≡ m.event.event_id)
          (b.claim_pending stream group consumer min_idle count s).0

all_as :
    (f g : String → String)
    → ((j : String) → f j ≡ g j)
    → (r : Result (List RawMessage)) → AllOf (λ m. f m.id ≡ m.event.event_id) r
    → AllOf (λ m. g m.id ≡ m.event.event_id) r
all_as f g same (ok []) h = tt
all_as f g same (ok (m ∷ ms)) (p, h) = (sym (same m.id) ∙ p, all_as f g same (ok ms) h)
all_as f g same (err _) h = tt

module _ {B I R : Type 0} (env : Environment) (w : Worker B I R) (store : IdempotencyStore I)
    {v : Views I} (law : IsLawful store v) {a : AckView B}
    (tracks : TracksAcks w.buffer w.stream_name w.group_name a) (log : String → String) where
  -- The stream holds the events of `log`, and of every message that has been acknowledged, the event
  -- is marked done.
  pub record AckedAreDone (s : World B I R) : Type 0 where
    pub events : (j : String) → a.event_of s.buffer j ≡ log j
    pub done : (id : String) → a.is_acked s.buffer id ≡ true → v.done s.idem (log id) ≡ true

  abbrev IsOf : RawMessage → Type 0
  IsOf m = log m.id ≡ m.event.event_id

  rebuffered_keeps :
      (s : World B I R) (b : B)
      → IsSameLog a s.buffer b
      → AckedAreDone s
      → AckedAreDone (record s { buffer = b })
  rebuffered_keeps s b same h = record {
    events = λ j. same.events j ∙ h.events j;
    done = λ id acks. h.done id (rw same.acks at acks);
  }

  module _ (msg : RawMessage) (s : World B I R) (of : IsOf msg) (h : AckedAreDone s) where
    after_done :
        v.done s.idem msg.event.event_id ≡ true
        → AckedAreDone (record s { buffer = acked w msg s.buffer })
    after_done done = record {
      events = λ j. tracks.ack_events msg.id s.buffer j ∙ h.events j;
      done = λ id acks. elim (tracks.ack_only msg.id s.buffer id acks) [
        | inl same ↦ ap (λ j. v.done s.idem (log j)) (sym same) ∙ ap (v.done s.idem) of ∙ done
        | inr before ↦ h.done id before
      ];
    }

    module _ (fresh : v.done s.idem msg.event.event_id ≡ false)
        (free : v.locked s.idem msg.event.event_id ≡ false) where
      abbrev after : World B I R
      after = (process_message env (guarded w store) msg s).1

      after_failure :
          (e : Error) → (guarded_run env w store law msg s).0 ≡ err e → AckedAreDone after
      after_failure e failed =
          let t = failed-IsRetriable env w store law msg s fresh free failed in
          record {
            events = λ j. rw t.buffer (h.events j);
            done = λ id acks. t.markers (log id) ∙ h.done id (rw t.buffer at acks);
          }

      after_success : (r : _) → (guarded_run env w store law msg s).0 ≡ ok r → AckedAreDone after
      after_success r done =
          let t = succeeded-IsDelivered env w store law msg s fresh free done in
          record {
            events = λ j. rw t.buffer (tracks.ack_events msg.id s.buffer j ∙ h.events j);
            done = λ id acks.
                t.markers (log id)
                ∙ elim (tracks.ack_only msg.id s.buffer id (rw t.buffer at acks)) [
                  | inl same ↦ ground (arith, eq_iff msg.event.event_id (log id), of, same)
                  | inr before ↦ ground (arith, h.done id before)
                ];
          }

      after_owned : AckedAreDone after
      after_owned = elim (Result-cases (guarded_run env w store law msg s).0) [
        | inl (r, done) ↦ after_success r done
        | inr (e, failed) ↦ after_failure e failed
      ]

    process_message-AckedAreDone : AckedAreDone (process_message env (guarded w store) msg s).1
    process_message-AckedAreDone = elim (Bool-cases (v.done s.idem msg.event.event_id)) [
      | inl done ↦ rw (done_only_acks env w store law msg s done) (after_done done)
      | inr fresh ↦ elim (Bool-cases (v.locked s.idem msg.event.event_id)) [
        | inl held ↦ rw (locked_changes_nothing env w store law msg s fresh held) h
        | inr free ↦ after_owned fresh free
      ]
    ]

  module _ (parallel : List RawMessage → Action B I R (Option (Unit {0})))
      (sequential : is_above w.concurrency 1 ≡ false) where
    acked-IsKept : IsKept env (guarded w store) parallel AckedAreDone IsOf
    acked-IsKept = record {
      polling = λ s h. record { events = h.events; done = h.done };
      processing = λ msg s of h. process_message-AckedAreDone msg s of h;
      branch = λ msgs s many _ _. cc;
      ensuring = λ s h. rebuffered_keeps s _ (tracks.ensure_log s.buffer) h;
      reading = λ s h. rebuffered_keeps s _ (tracks.read_log _ _ _ s.buffer) h;
      claiming = λ s h. rebuffered_keeps s _ (tracks.claim_log _ _ _ s.buffer) h;
      read_all = λ s h. all_as _ log h.events _ (tracks.read_events _ _ _ s.buffer);
      claimed_all = λ s h. all_as _ log h.events _ (tracks.claim_events _ _ _ s.buffer);
    }

-- With a concurrency of 1 or less, over an idempotency store that never fails (`IsLawful`) and a
-- buffer that keeps `TracksAcks`, as the Redis one does (`redis_buffer-TracksAcks`): if the event of
-- every acknowledged message is marked done when `Start` begins, so is that of every message that is
-- acknowledged when it returns, whatever it has read, claimed and processed. The event of a message
-- is the one that the stream held when `Start` began.
pub start_acks_done :
    {B I R : Type 0} (env : Environment) (w : Worker B I R) (store : IdempotencyStore I)
    {v : Views I} (law : IsLawful store v) {a : AckView B}
    (tracks : TracksAcks w.buffer w.stream_name w.group_name a) (ticks : ℕ → ℕ)
    (parallel : List RawMessage → Action B I R (Option (Unit {0})))
    → is_above w.concurrency 1 ≡ false
    → (fuel : ℕ) (s : World B I R)
    → ((id : String)
        → a.is_acked s.buffer id ≡ true
        → v.done s.idem (a.event_of s.buffer id) ≡ true)
    → let t = (start env (guarded w store) ticks parallel fuel s).1 in
      (id : String) → a.is_acked t.buffer id ≡ true → v.done t.idem (a.event_of s.buffer id) ≡ true
start_acks_done env w store law {a = a} tracks ticks parallel sequential fuel s h id acks =
    (start-keeps env (guarded w store) parallel
        (acked-IsKept env w store law tracks (a.event_of s.buffer) parallel sequential) ticks fuel s
        (record { events = λ j. refl; done = h })).done
      id acks
