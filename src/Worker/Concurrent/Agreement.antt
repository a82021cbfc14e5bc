-- ===== src/Worker/Concurrent/Agreement.antt =====
-- The moves of one goroutine with no other in between are `processSingleMessageIdempotent`.
use log_morph.Common.{
  String, ◌≡◌, refl, sym, ap, ◌∙◌, Bool, true, false, List, [], ◌∷◌, Result, ok, err, Error, inl,
  inr, ◌⊎◌,
}
use log_morph.Buffer.{RawMessage}
use log_morph.Idempotency.{IdempotencyStore}
use log_morph.Worker.{Worker, World, Environment}
use log_morph.Worker.Pipeline.{PipelineResult, process_single_event}
use log_morph.Worker.Pipeline.Frame.{process_frame}
use log_morph.Worker.Message.{check_gate, settle, ack, process_message, owned}
use log_morph.Worker.Message.Delivery.{guarded, acked}
use log_morph.Worker.Concurrent.{System, Move, move, run_moves, begin}

abbrev pub is_ok : {A : Type 0} → Result A → Bool
is_ok (ok _) = true
is_ok (err _) = false

abbrev pub uninterrupted : Bool → List Move
uninterrupted outcome =
    (0, outcome) ∷ (0, outcome) ∷ (0, outcome) ∷ (0, outcome) ∷ (0, outcome) ∷ []

answer-cases : (r : Result Bool) → (r ≡ ok true) ⊎ ((r ≡ ok false) ⊎ ((e : Error) × (r ≡ err e)))
answer-cases (ok true) = inl refl
answer-cases (ok false) = inr (inl refl)
answer-cases (err e) = inr (inr (e, refl))

module _ {B I R : Type 0} (env : Environment) (w : Worker B I R) (store : IdempotencyStore I)
    (msg : RawMessage) (s : World B I R) where
  abbrev id : String
  id = msg.event.event_id

  -- the run of the pipeline behind the checks
  abbrev pub checked_run : Result PipelineResult × World B I R
  checked_run =
      process_single_event env (guarded w store) msg.event
        (check_gate env (guarded w store) (guarded w store).idempotency msg.event.event_id s).1

  abbrev pub moves : Bool → System I
  moves outcome =
      run_moves store w.lock_ttl w.done_ttl (λ _. msg.event.event_id) (begin s.idem)
        (uninterrupted outcome)

  -- the buffer after these acknowledgements of the message
  abbrev pub told : List String → B
  told [] = s.buffer
  told (_ ∷ _) = acked w msg s.buffer

  abbrev Agrees : Type 0
  Agrees =
      ((process_message env (guarded w store) msg s).1.idem ≡ (moves (is_ok checked_run.0)).idem)
      × ((process_message env (guarded w store) msg s).1.buffer
          ≡ told (moves (is_ok checked_run.0)).acks)

  abbrev asked : I
  asked = (store.is_done id s.idem).1

  abbrev claimed : I
  claimed = (store.try_claim_processing id w.lock_ttl asked).1

  already : (store.is_done id s.idem).0 ≡ ok true → Agrees
  unfolding process_message check_gate run_moves move ack
  already h = rw h (refl, refl)

  -- the calls after the pipeline
  abbrev after_run : Bool → I → I
  after_run true i = (store.mark_done id w.done_ttl i).1
  after_run false i = (store.release_processing id i).1

  abbrev acks_of : Bool → List String
  acks_of true = id ∷ []
  acks_of false = []

  settled :
      (r : Result PipelineResult) (t : World B I R)
      → t.buffer ≡ s.buffer
      → ((settle env (guarded w store) msg r t).1.idem ≡ after_run (is_ok r) t.idem)
        × ((settle env (guarded w store) msg r t).1.buffer ≡ told (acks_of (is_ok r)))
  unfolding settle ack
  settled (ok _) t same = (refl, ap (acked w msg) same)
  settled (err _) t same = (refl, same)

  abbrev MovesTo : Bool → Type 0
  MovesTo b = ((moves b).idem ≡ after_run b claimed) × ((moves b).acks ≡ acks_of b)

  either_way : MovesTo true → MovesTo false → (b : Bool) → MovesTo b
  either_way if_ok if_err true = if_ok
  either_way if_ok if_err false = if_err

  -- neither done nor claimed by another: what the checks find, and what the moves do
  record IsOwned : Type 0 where
    gate :
        check_gate env (guarded w store) (guarded w store).idempotency id s
        ≡ (owned, record s { idem = claimed })
    moved : (b : Bool) → MovesTo b

  owned_agrees : IsOwned → Agrees
  unfolding process_message
  owned_agrees o =
      let run =
        process_single_event env (guarded w store) msg.event (record s { idem = claimed }) in
      let frame = process_frame env (guarded w store) msg.event (record s { idem = claimed }) in
      let done = settled run.0 run.1 frame.0 in
      let m = o.moved (is_ok run.0) in
      rw o.gate
        (done.0 ∙ (ap (after_run (is_ok run.0)) frame.1 ∙ sym m.0), done.1 ∙ ap told (sym m.1))

  abbrev Goes : Result Bool → Type 0
  Goes r = (r ≡ ok false) ⊎ ((e : Error) × (r ≡ err e))

  owned_by :
      {d c : Result Bool}
      → (store.is_done id s.idem).0 ≡ d
      → (store.try_claim_processing id w.lock_ttl asked).0 ≡ c
      → Goes d
      → (c ≡ ok true) ⊎ ((e : Error) × (c ≡ err e))
      → IsOwned
  unfolding check_gate run_moves move
  owned_by hd hc (inl d) (inl c) = record {
    gate = rw (hd, d, hc, c) refl;
    moved = either_way (rw (hd, d, hc, c) (refl, refl)) (rw (hd, d, hc, c) (refl, refl));
  }
  owned_by hd hc (inl d) (inr (x, c)) = record {
    gate = rw (hd, d, hc, c) refl;
    moved = either_way (rw (hd, d, hc, c) (refl, refl)) (rw (hd, d, hc, c) (refl, refl));
  }
  owned_by hd hc (inr (x, d)) (inl c) = record {
    gate = rw (hd, d, hc, c) refl;
    moved = either_way (rw (hd, d, hc, c) (refl, refl)) (rw (hd, d, hc, c) (refl, refl));
  }
  owned_by hd hc (inr (x, d)) (inr (y, c)) = record {
    gate = rw (hd, d, hc, c) refl;
    moved = either_way (rw (hd, d, hc, c) (refl, refl)) (rw (hd, d, hc, c) (refl, refl));
  }

  refused :
      (d : Result Bool)
      → (store.is_done id s.idem).0 ≡ d
      → Goes d
      → (store.try_claim_processing id w.lock_ttl asked).0 ≡ ok false
      → Agrees
  unfolding process_message check_gate run_moves move
  refused d h (inl same) c = rw (h, same, c) (refl, refl)
  refused d h (inr (x, same)) c = rw (h, same, c) (refl, refl)

  may_claim : (d : Result Bool) → (store.is_done id s.idem).0 ≡ d → Goes d → Agrees
  may_claim d h goes = elim (answer-cases (store.try_claim_processing id w.lock_ttl asked).0) [
    | inl c ↦ owned_agrees (owned_by h refl goes (inl c))
    | inr other ↦ elim other [
      | inl c ↦ refused d h goes c
      | inr c ↦ owned_agrees (owned_by h refl goes (inr c))
    ]
  ]

  -- For every idempotency store, whatever it answers and whichever of its calls fail: what a delivery
  -- does to the store is what its goroutine's calls do, made one after the other with nothing in
  -- between, and the delivery acknowledges the message exactly if they do, where the pipeline's
  -- outcome is that of the run behind the checks.
  pub process_message-eq-moves :
      let t = (process_message env (guarded w store) msg s).1 in
      let m =
        run_moves store w.lock_ttl w.done_ttl
          (λ _. msg.event.event_id)
          (begin s.idem)
          (uninterrupted (is_ok checked_run.0)) in
      (t.idem ≡ m.idem) × (t.buffer ≡ told m.acks)
  process_message-eq-moves = elim (answer-cases (store.is_done id s.idem).0) [
    | inl h ↦ already h
    | inr other ↦ elim other [
      | inl h ↦ may_claim (ok false) h (inl refl)
      | inr (e, h) ↦ may_claim (err e) h (inr (e, refl))
    ]
  ]
