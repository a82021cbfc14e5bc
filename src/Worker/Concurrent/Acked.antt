-- ===== src/Worker/Concurrent/Acked.antt =====
-- What the goroutines acknowledge.
use log_morph.Common.{
  ℕ, String, ◌≡◌, refl, Bool, true, false, List, [], ◌∷◌, All, arith, eqb, eqb→eq, eq_refl,
  Bool-cases, inl, inr,
}
use log_morph.Common.Integer.{ℤ}
use log_morph.Idempotency.{IdempotencyStore}
use log_morph.Idempotency.Lawful.{Views, IsLawful}
use log_morph.Worker.Concurrent.{
  System, Phase, Move, starting, checked, running, succeeded, failed, acking, finished, log_ack,
  move, run_moves, begin, advance,
}

abbrev pub is_acking : Phase → Bool
is_acking acking = true
is_acking _ = false

module _ {I : Type 0} (store : IdempotencyStore I) {v : Views I} (law : IsLawful store v)
    (lock_ttl done_ttl : ℤ) (ids : ℕ → String) where
  -- Acknowledged events, and those about to be, are marked done.
  record IsMarked (s : System I) : Type 0 where
    pub acked : All (λ id. v.done s.idem id ≡ true) s.acks
    pub about : (g : ℕ) → is_acking (s.phases g) ≡ true → v.done s.idem (ids g) ≡ true

  module _ (id : String) (outcome : Bool) where
    abbrev next : Phase → I → Phase × I
    next p i = advance store lock_ttl done_ttl ids id outcome p i

    -- No call removes a marker.
    advance_marks :
        (p : Phase) (i : I) (j : String) → v.done i j ≡ true → v.done (next p i).1 j ≡ true
    unfolding advance
    advance_marks starting i j h = rw law.is_done_lem h
    advance_marks checked i j h = rw law.claim_done h
    advance_marks running i j h = h
    advance_marks succeeded i j h = rw (law.mark_done_lem, h) (ground arith)
    advance_marks failed i j h = rw law.release_done h
    advance_marks acking i j h = h
    advance_marks finished i j h = h

    -- A goroutine that comes to `Ack` has found its event marked, or has marked it.
    advance_acking :
        (p : Phase) (i : I) → is_acking (next p i).0 ≡ true → v.done (next p i).1 id ≡ true
    unfolding advance
    advance_acking starting i h = ground (arith, law.is_done_lem id i)
    advance_acking checked i h = ground (arith, law.claim_answer id lock_ttl i)
    advance_acking running i h = ground arith
    advance_acking succeeded i h = rw (law.mark_done_lem, eq_refl id)
    advance_acking p i h = ground arith

  module _ (s : System I) (h : IsMarked s) (g : ℕ) (outcome : Bool) where
    abbrev after : System I
    after = move store lock_ttl done_ttl ids s (g, outcome)

    marks_stay : (j : String) → v.done s.idem j ≡ true → v.done after.idem j ≡ true
    unfolding move
    marks_stay j m = advance_marks (ids g) outcome (s.phases g) s.idem j m

    all_stay :
        (js : List String)
        → All (λ id. v.done s.idem id ≡ true) js
        → All (λ id. v.done after.idem id ≡ true) js
    all_stay [] tt = tt
    all_stay (j ∷ js) (m, ms) = (marks_stay j m, all_stay js ms)

    ack_marked :
        (p : Phase)
        → (is_acking p ≡ true → v.done after.idem (ids g) ≡ true)
        → All (λ id. v.done after.idem id ≡ true) (log_ack (ids g) p s.acks)
    ack_marked acking m = (m refl, all_stay s.acks h.acked)
    ack_marked p m = all_stay s.acks h.acked

    move-about : (k : ℕ) → is_acking (after.phases k) ≡ true → v.done after.idem (ids k) ≡ true
    unfolding move
    move-about k acks = elim (Bool-cases (eqb k g)) [
      | inl same ↦
          rw (eqb→eq k g same)
            (advance_acking (ids g) outcome (s.phases g) s.idem (rw same at acks))
      | inr differ ↦ marks_stay (ids k) (h.about k (rw differ at acks))
    ]

    move-IsMarked : IsMarked after
    unfolding move
    move-IsMarked = record {
      acked = ack_marked (s.phases g) (λ acks. marks_stay (ids g) (h.about g acks));
      about = move-about;
    }

  run_moves-IsMarked :
      (s : System I) (ms : List Move)
      → IsMarked s
      → IsMarked (run_moves store lock_ttl done_ttl ids s ms)
  unfolding run_moves
  run_moves-IsMarked s [] h = h
  run_moves-IsMarked s ((g, outcome) ∷ ms) h =
      run_moves-IsMarked (move store lock_ttl done_ttl ids s (g, outcome)) ms
        (move-IsMarked s h g outcome)

  -- Whatever goroutines run and however their calls interleave, over a lawful store every event
  -- whose message was acknowledged is marked done.
  pub acked_are_done :
      (i : I) (ms : List Move)
      → All
          (λ id. v.done (run_moves store lock_ttl done_ttl ids (begin i) ms).idem id ≡ true)
          (run_moves store lock_ttl done_ttl ids (begin i) ms).acks
  acked_are_done i ms =
      (run_moves-IsMarked (begin i) ms (record { acked = tt; about = λ g acks. cc })).acked
