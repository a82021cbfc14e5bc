-- ===== src/Worker/Concurrent/Exclusion.antt =====
-- What keeps two goroutines from processing the same event at the same time: the lock of a store that
-- does not fail. Where a claim fails, the code goes on without one.
use log_morph.Common.{
  ℕ, String, ◌≡◌, ◌∙◌, Bool, true, false, List, [], ◌∷◌, arith, eqb, eqb→eq, ◌==◌, eq_iff,
  Bool-cases, inl, inr,
}
use log_morph.Common.Integer.{ℤ}
use log_morph.Idempotency.{IdempotencyStore}
use log_morph.Idempotency.Lawful.{Views, IsLawful}
use log_morph.Worker.Concurrent.{System, Phase, Move, move, run_moves, begin, holds, advance}
use log_morph.Worker.Concurrent.Effect.{
  advance_others, advance_holds, advance_claims, advance_keeps,
}

module _ {I : Type 0} {store : IdempotencyStore I} {v : Views I} (law : IsLawful store v)
    (ids : ℕ → String) where
  -- A goroutine that holds its event has it locked, and no two hold one event.
  pub record IsExclusive (s : System I) : Type 0 where
    pub locked : (g : ℕ) → holds (s.phases g) ≡ true → v.locked s.idem (ids g) ≡ true
    pub alone :
        (g k : ℕ) → holds (s.phases g) ≡ true → holds (s.phases k) ≡ true → ids g ≡ ids k → g ≡ k

module _ {I : Type 0} (store : IdempotencyStore I) {v : Views I} (law : IsLawful store v)
    (lock_ttl done_ttl : ℤ) (ids : ℕ → String) where
  module _ (s : System I) (h : IsExclusive law ids s) (g : ℕ) (outcome : Bool) where
    abbrev after : System I
    after = move store lock_ttl done_ttl ids s (g, outcome)

    abbrev next : Phase × I
    next = advance store lock_ttl done_ttl ids (ids g) outcome (s.phases g) s.idem

    own : holds next.0 ≡ true → v.locked next.1 (ids g) ≡ true
    own =
        advance_holds store law lock_ttl done_ttl ids (ids g) outcome (s.phases g) s.idem
          (h.locked g)

    -- a goroutine that held its event before another one moved has it locked still
    others : (k : ℕ) → holds (s.phases k) ≡ true → eqb k g ≡ false → v.locked next.1 (ids k) ≡ true
    others k held ne = elim (Bool-cases (ids g == ids k)) [
      | inr differ ↦
          advance_others store law lock_ttl done_ttl ids (ids g) outcome (s.phases g) s.idem (ids k)
            differ
          ∙ h.locked k held
      | inl same ↦ elim (Bool-cases (holds (s.phases g))) [
        | inl both ↦ ground (arith, h.alone g k both held ((eq_iff (ids g) (ids k)).0 same))
        | inr idle ↦
            advance_keeps store law lock_ttl done_ttl ids (ids g) outcome (s.phases g) s.idem
              (ids k) idle (h.locked k held)
      ]
    ]

    move-locked : (k : ℕ) → holds (after.phases k) ≡ true → v.locked after.idem (ids k) ≡ true
    unfolding move
    move-locked k held = elim (Bool-cases (eqb k g)) [
      | inl same ↦ rw (eqb→eq k g same) (own (rw same at held))
      | inr differ ↦ others k (rw differ at held) differ
    ]

    -- A goroutine that holds its event after its call meets no other that holds it.
    meets_none : (k : ℕ) → holds next.0 ≡ true → holds (s.phases k) ≡ true → ids g ≡ ids k → g ≡ k
    meets_none k claims held same = elim (Bool-cases (holds (s.phases g))) [
      | inl both ↦ h.alone g k both held same
      | inr idle ↦ ground (
        arith,
        advance_claims store law lock_ttl done_ttl ids (ids g) outcome (s.phases g) s.idem idle
            claims,
        h.locked k held,
      )
    ]

    move-alone :
        (j k : ℕ)
        → holds (after.phases j) ≡ true
        → holds (after.phases k) ≡ true
        → ids j ≡ ids k
        → j ≡ k
    unfolding move
    move-alone j k hj hk same = ground (arith, meets_none k, meets_none j, h.alone j k)

    pub move-IsExclusive : IsExclusive law ids after
    move-IsExclusive = record { locked = move-locked; alone = move-alone }

  run_moves-IsExclusive :
      (s : System I) (ms : List Move)
      → IsExclusive law ids s
      → IsExclusive law ids (run_moves store lock_ttl done_ttl ids s ms)
  unfolding run_moves
  run_moves-IsExclusive s [] h = h
  run_moves-IsExclusive s ((g, outcome) ∷ ms) h =
      run_moves-IsExclusive (move store lock_ttl done_ttl ids s (g, outcome)) ms
        (move-IsExclusive s h g outcome)

  pub begin-IsExclusive : (i : I) → IsExclusive law ids (begin i)
  begin-IsExclusive i = record { locked = λ g held. cc; alone = λ g k held _ _. cc }

  -- Over an idempotency store none of whose calls fails and none of whose keys expires (`IsLawful`):
  -- whatever goroutines run and however their calls interleave, two of them that have both claimed
  -- one event and not yet marked or released it are the same goroutine, and the event is locked.
  pub mutual_exclusion :
      (i : I) (ms : List Move) (g k : ℕ)
      → holds ((run_moves store lock_ttl done_ttl ids (begin i) ms).phases g) ≡ true
      → holds ((run_moves store lock_ttl done_ttl ids (begin i) ms).phases k) ≡ true
      → ids g ≡ ids k
      → (g ≡ k)
        × (v.locked (run_moves store lock_ttl done_ttl ids (begin i) ms).idem (ids g) ≡ true)
  mutual_exclusion i ms g k hg hk same =
      let h = run_moves-IsExclusive (begin i) ms (begin-IsExclusive i) in
      (h.alone g k hg hk same, h.locked g hg)
