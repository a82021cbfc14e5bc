-- ===== src/Worker/Concurrent/Race.antt =====
-- The in-memory store frees the lock in `MarkDone`, so a goroutine that passed `IsDone` before can
-- still claim an event that has been processed.
use log_morph.Common.{String, ◌≡◌, true, false, List, [], ◌∷◌, eq_refl}
use log_morph.Common.Integer.{ℤ}
use log_morph.Common.GoMap.{get-delete}
use log_morph.Idempotency.{
  Memory, memory_store, flag, memory_try_claim, memory_mark_done, memory_is_done,
}
use log_morph.Worker.Concurrent.{Move, move, run_moves, begin}

-- Goroutine 0 asks `IsDone`; goroutine 1 handles the event from `IsDone` to `MarkDone`; goroutine
-- 0 goes on to claim the event and to run the pipeline.
abbrev pub overtaking : List Move
overtaking = (0, true) ∷ (1, true) ∷ (1, true) ∷ (1, true) ∷ (1, true) ∷ (0, true) ∷ (0, true) ∷ []

-- For every event that is neither done nor locked in the in-memory store, two goroutines that
-- handle it can both run its pipeline to success, one after the other has marked it done.
pub memory_store_runs_twice :
    (lock_ttl done_ttl : ℤ) (m : Memory) (id : String)
    → flag m.done id ≡ false
    → flag m.processing id ≡ false
    → (run_moves memory_store lock_ttl done_ttl (λ _. id) (begin m) overtaking).runs ≡ id ∷ id ∷ []
unfolding run_moves move memory_is_done memory_try_claim memory_mark_done
memory_store_runs_twice lock_ttl done_ttl m id fresh free = rw (fresh, free, get-delete, eq_refl id)
