-- ===== src/Worker/Concurrent/AtMostOnce.antt =====
-- With a store whose `MarkDone` keeps the lock, as Redis does while no key expires, no event is
-- processed twice.
use log_morph.Common.{
  ℕ, suc, ◌≤◌, String, ◌≡◌, refl, ◌∙◌, Bool, true, false, List, [], ◌∷◌, arith, eqb, eqb→eq,
  eqb_refl, ◌==◌, eq_iff, eq_refl, if◌then◌else◌, Bool-cases, inl, inr,
}
use log_morph.Common.Integer.{ℤ}
use log_morph.Idempotency.{IdempotencyStore}
use log_morph.Idempotency.Lawful.{Views, IsLawful}
use log_morph.Worker.Concurrent.{
  System, Phase, Move, starting, checked, running, succeeded, failed, acking, finished, log_run,
  move, run_moves, begin, holds, advance,
}
use log_morph.Worker.Concurrent.Exclusion.{IsExclusive, move-IsExclusive, begin-IsExclusive}

-- how many pipelines of an event have succeeded
abbrev pub count : String → List String → ℕ
count id [] = 0
count id (x ∷ xs) = if x == id then suc (count id xs) else count id xs

-- `MarkDone` leaves every lock.
abbrev pub KeepsLocks :
    {I : Type 0} {store : IdempotencyStore I} {v : Views I} → IsLawful store v → Type 0
KeepsLocks {I} {store} {v} law =
    (id : String) (ttl : ℤ) (i : I) (j : String)
    → v.locked (store.mark_done id ttl i).1 j ≡ v.locked i j

-- The pipeline is running, or has failed and the lock is not yet released.
abbrev pub may_rerun : Phase → Bool
may_rerun running = true
may_rerun failed = true
may_rerun _ = false

module _ {I : Type 0} {store : IdempotencyStore I} {v : Views I} (law : IsLawful store v)
    (ids : ℕ → String) where
  pub record IsSingle (s : System I) : Type 0 where
    pub exclusive : IsExclusive law ids s
    pub single : (id : String) → count id s.runs ≤ 1
    pub sealed : (id : String) → count id s.runs ≡ 1 → v.locked s.idem id ≡ true
    pub settled : (g : ℕ) → count (ids g) s.runs ≡ 1 → may_rerun (s.phases g) ≡ false

module _ {I : Type 0} (store : IdempotencyStore I) {v : Views I} (law : IsLawful store v)
    (keeps : KeepsLocks law) (lock_ttl done_ttl : ℤ) (ids : ℕ → String) where
  module _ (s : System I) (h : IsSingle law ids s) (g : ℕ) (outcome : Bool) where
    abbrev next : Phase → Phase × I
    next p = advance store lock_ttl done_ttl ids (ids g) outcome p s.idem

    abbrev runs_after : Phase → List String
    runs_after p = log_run (ids g) p outcome s.runs

    -- a run in progress is the first that can succeed
    first : (p : Phase) → s.phases g ≡ p → may_rerun p ≡ true → count (ids g) s.runs ≡ 0
    first p e risk = ground (arith, h.single (ids g), h.settled g)

    single_after : (p : Phase) → s.phases g ≡ p → (id : String) → count id (runs_after p) ≤ 1
    single_after running e id = ground (arith, h.single id, first running e refl, eq_iff (ids g) id)
    single_after p e id = ground (arith, h.single id)

    sealed_after :
        (p : Phase)
        → s.phases g ≡ p
        → (id : String) → count id (runs_after p) ≡ 1
        → v.locked (next p).1 id ≡ true
    unfolding advance
    sealed_after starting e id c = rw law.is_done_lem (h.sealed id c)
    sealed_after checked e id c = rw (law.claim_locked, h.sealed id c) (ground arith)
    sealed_after running e id c =
        ground (arith, h.sealed id, h.exclusive.locked g, eq_iff (ids g) id)
    sealed_after succeeded e id c = keeps (ids g) done_ttl s.idem id ∙ h.sealed id c
    sealed_after failed e id c =
        rw law.release_locked (ground (arith, h.sealed id, first failed e refl, eq_iff (ids g) id))
    sealed_after acking e id c = h.sealed id c
    sealed_after finished e id c = h.sealed id c

    own_settled :
        (p : Phase)
        → s.phases g ≡ p
        → count (ids g) (runs_after p) ≡ 1
        → may_rerun (next p).0 ≡ false
    unfolding advance
    own_settled starting e c = ground (arith, law.is_done_lem (ids g) s.idem)
    own_settled checked e c =
        ground (arith, law.claim_answer (ids g) lock_ttl s.idem, h.sealed (ids g))
    own_settled running e c = ground (arith, first running e refl, eq_refl (ids g))
    own_settled p e c = ground arith

    holds_of_may_rerun : (p : Phase) → may_rerun p ≡ true → holds p ≡ true
    holds_of_may_rerun p risk = ground arith

    others_settled :
        (p : Phase)
        → s.phases g ≡ p
        → (k : ℕ) → eqb k g ≡ false
        → count (ids k) (runs_after p) ≡ 1
        → may_rerun (s.phases k) ≡ false
    others_settled running e k differ c = ground (
      arith,
      h.settled k,
      h.exclusive.alone g k,
      eq_iff (ids g) (ids k),
      holds_of_may_rerun (s.phases k),
      eqb_refl k,
    )
    others_settled p e k differ c = ground (arith, h.settled k)

    settled_after :
        (k : ℕ)
        → count (ids k) (move store lock_ttl done_ttl ids s (g, outcome)).runs ≡ 1
        → may_rerun ((move store lock_ttl done_ttl ids s (g, outcome)).phases k) ≡ false
    unfolding move
    settled_after k c = elim (Bool-cases (eqb k g)) [
      | inl same ↦ rw same (own_settled (s.phases g) refl (rw (eqb→eq k g same) at c))
      | inr differ ↦ rw differ (others_settled (s.phases g) refl k differ c)
    ]

    move-IsSingle : IsSingle law ids (move store lock_ttl done_ttl ids s (g, outcome))
    unfolding move
    move-IsSingle = record {
      exclusive = move-IsExclusive store law lock_ttl done_ttl ids s h.exclusive g outcome;
      single = single_after (s.phases g) refl;
      sealed = sealed_after (s.phases g) refl;
      settled = settled_after;
    }

  run_moves-IsSingle :
      (s : System I) (ms : List Move)
      → IsSingle law ids s
      → IsSingle law ids (run_moves store lock_ttl done_ttl ids s ms)
  unfolding run_moves
  run_moves-IsSingle s [] h = h
  run_moves-IsSingle s ((g, outcome) ∷ ms) h =
      run_moves-IsSingle (move store lock_ttl done_ttl ids s (g, outcome)) ms
        (move-IsSingle s h g outcome)

  -- Over an idempotency store none of whose calls fails and none of whose keys expires (`IsLawful`),
  -- and whose `MarkDone` keeps the lock: whatever goroutines run and however their calls interleave,
  -- at most one pipeline run of an event succeeds.
  pub at_most_once :
      (i : I) (ms : List Move) (id : String)
      → count id (run_moves store lock_ttl done_ttl ids (begin i) ms).runs ≤ 1
  at_most_once i ms id = (run_moves-IsSingle (begin i) ms begin-IsSingle).single id
    where
      begin-IsSingle : IsSingle law ids (begin i)
      begin-IsSingle = record {
        exclusive = begin-IsExclusive store law lock_ttl done_ttl ids i;
        single = λ j. omega arith;
        sealed = λ j c. absurd (omega arith);
        settled = λ g c. refl;
      }
