-- ===== src/Worker/Concurrent.antt =====
-- Goroutines of `processMessages`, of one worker process or of several, that run
-- `processSingleMessageIdempotent` at the same time. Each call of the idempotency store is atomic
-- (a mutex, or one Redis command); between two calls any other goroutine may move.
pub mod Effect
pub mod Exclusion
pub mod AtMostOnce
pub mod Race
pub mod Agreement
pub mod Acked
use log_morph.Common.{
  ℕ, String, Bool, true, false, List, [], ◌∷◌, Result, ok, err, eqb, if◌then◌else◌,
}
use log_morph.Common.Integer.{ℤ}
use log_morph.Idempotency.{IdempotencyStore}

-- Where a goroutine stands between its calls.
pub data Phase : Type 0 where
  -- before `IsDone`, before `TryClaimProcessing`, before the pipeline has returned
  starting checked running : Phase
  -- before `MarkDone`, before `ReleaseProcessing`, before `Ack`, and after the last call
  succeeded failed acking finished : Phase

abbrev pub phase_of_done : Result Bool → Phase
phase_of_done (ok true) = acking
phase_of_done (ok false) = checked
phase_of_done (err _) = checked

abbrev pub phase_of_claim : Result Bool → Phase
phase_of_claim (ok false) = finished
phase_of_claim (ok true) = running
phase_of_claim (err _) = running

abbrev pub phase_of_run : Bool → Phase
phase_of_run true = succeeded
phase_of_run false = failed

-- The goroutines 0, 1, 2, … over the store that they share, and the events whose pipeline has
-- returned without an error, once for each run, and those whose message was acknowledged.
pub record System (I : Type 0) : Type 0 where
  pub idem : I
  pub phases : ℕ → Phase
  pub runs : List String
  pub acks : List String

-- A move: which goroutine, and whether its pipeline succeeds if that is what returns.
abbrev pub Move : Type 0
Move = ℕ × Bool

abbrev pub set_phase : (ℕ → Phase) → ℕ → Phase → ℕ → Phase
set_phase phases g p k = if eqb k g then p else phases k

-- a run that ends without an error is counted
abbrev pub log_run : String → Phase → Bool → List String → List String
log_run id running true runs = id ∷ runs
log_run id _ _ runs = runs

-- the call of `Ack`
abbrev pub log_ack : String → Phase → List String → List String
log_ack id acking acks = id ∷ acks
log_ack id _ acks = acks

module _ {I : Type 0} (store : IdempotencyStore I) (lock_ttl done_ttl : ℤ) (ids : ℕ → String) where
  -- the next call of a goroutine that handles the event `id`
  unfoldable pub advance : String → Bool → Phase → I → Phase × I
  advance id outcome starting i = let (r, i') = store.is_done id i in (phase_of_done r, i')
  advance id outcome checked i =
      let (r, i') = store.try_claim_processing id lock_ttl i in (phase_of_claim r, i')
  advance id outcome running i = (phase_of_run outcome, i)
  advance id outcome succeeded i = (acking, (store.mark_done id done_ttl i).1)
  advance id outcome failed i = (finished, (store.release_processing id i).1)
  advance id outcome acking i = (finished, i)
  advance id outcome finished i = (finished, i)

  unfoldable pub move : System I → Move → System I
  unfolding advance
  move s (g, outcome) =
      let (p, i) = advance (ids g) outcome (s.phases g) s.idem in
      record {
        idem = i;
        phases = set_phase s.phases g p;
        runs = log_run (ids g) (s.phases g) outcome s.runs;
        acks = log_ack (ids g) (s.phases g) s.acks;
      }

  unfoldable pub run_moves : System I → List Move → System I
  run_moves s [] = s
  run_moves s (m ∷ ms) = run_moves (move s m) ms

-- every goroutine before its first call
abbrev pub begin : {I : Type 0} → I → System I
begin i = record { idem = i; phases = λ _. starting; runs = []; acks = [] }

-- The goroutine has claimed its event and has not yet released it or marked it done.
abbrev pub holds : Phase → Bool
holds running = true
holds succeeded = true
holds failed = true
holds _ = false
