-- ===== src/Tests/Goroutines.antt =====
-- Goroutines over both stores, and the pool.
use log_morph.Common.{
  ℕ, String, ◌≡◌, ◌≢◌, ◌≤◌, ◌+◌, ◌⊎◌, refl, true, false, List, [], ◌∷◌, All, arith,
}
use log_morph.Common.Integer.{pos}
use log_morph.Common.GoMap.{get}
use log_morph.Idempotency.{redis_store, memory_store, new_memory, memory_is_done, memory_try_claim}
use log_morph.Idempotency.Lawful.{memory_store-IsLawful, memory_views}
use log_morph.Idempotency.Redis.{redis_store-IsLawful}
use log_morph.Worker.Concurrent.{begin, run_moves, move, Move, holds}
use log_morph.Worker.Concurrent.Exclusion.{mutual_exclusion}
use log_morph.Worker.Concurrent.AtMostOnce.{at_most_once, count}
use log_morph.Worker.Concurrent.Acked.{acked_are_done}
use log_morph.Worker.Concurrent.Agreement.{uninterrupted}
use log_morph.Worker.Concurrent.Race.{overtaking, memory_store_runs_twice}
use log_morph.Worker.Pool.{Pool, Reach, fresh, here, next, work, enter, launch, at_check, returned}
use log_morph.Worker.Pool.Bound.{pool_bound}
use log_morph.Worker.Pool.Deadlock.{cancelled_call_can_hang}
use log_morph.Worker.Pool.Progress.{pool_returns}
use log_morph.Tests.Fixtures.{server, server-IsRedis}

abbrev ids : ℕ → String
ids _ = "evt_1"

-- The overtaking schedule runs the pipeline once over Redis.
at_most_once_example :
    count "evt_1"
      (run_moves (redis_store server) (pos 120) (pos 86400) ids (begin []) overtaking).runs
    ≤ 1
at_most_once_example =
    at_most_once (redis_store server) (redis_store-IsLawful server server-IsRedis).0
      (redis_store-IsLawful server server-IsRedis).1 (pos 120) (pos 86400) ids [] overtaking "evt_1"

-- Goroutine 1 has claimed the event, and goroutine 0 has only asked `IsDone`.
abbrev one_claims : List Move
one_claims = (0, true) ∷ (1, true) ∷ (1, true) ∷ []

claimed :
    holds
      ((run_moves memory_store (pos 120) (pos 86400) ids (begin new_memory) one_claims).phases 1)
    ≡ true
unfolding run_moves move memory_is_done memory_try_claim get
claimed = refl

mutual_exclusion_example :
    (◌≡◌ {A = ℕ} 1 1)
    × (memory_views.locked
          (run_moves memory_store (pos 120) (pos 86400) ids (begin new_memory) one_claims).idem
          "evt_1"
        ≡ true)
mutual_exclusion_example =
    mutual_exclusion memory_store memory_store-IsLawful (pos 120) (pos 86400) ids new_memory
      one_claims 1 1 claimed claimed refl

one_acknowledged :
    (run_moves memory_store (pos 120) (pos 86400) ids (begin new_memory) (uninterrupted true)).acks
    ≡ "evt_1" ∷ []
unfolding run_moves move memory_is_done memory_try_claim get
one_acknowledged = refl

acked_are_done_example :
    All
      (λ id.
        memory_views.done
          (run_moves memory_store
            (pos 120)
            (pos 86400)
            ids
            (begin new_memory)
            (uninterrupted true)).idem
          id
        ≡ true)
      (run_moves memory_store
        (pos 120)
        (pos 86400)
        ids
        (begin new_memory)
        (uninterrupted true)).acks
acked_are_done_example =
    acked_are_done memory_store memory_store-IsLawful (pos 120) (pos 86400) ids new_memory
      (uninterrupted true)

memory_store_runs_twice_example :
    (run_moves memory_store (pos 120) (pos 86400) ids (begin new_memory) overtaking).runs
    ≡ "evt_1" ∷ "evt_1" ∷ []
unfolding get
memory_store_runs_twice_example =
    memory_store_runs_twice (pos 120) (pos 86400) new_memory "evt_1" refl refl

-- Two messages, of which the first has been launched.
abbrev launched : Pool
launched = record {
  main = at_check;
  cancelled = false;
  waiting = 1;
  tokens = 1;
  active = 1;
  leaving = 0;
  exiting = 0;
  unticketed = 0;
}

reach_launched : Reach 4 (fresh 2) launched
reach_launched =
    next (next here (work (enter 1 refl refl refl))) (work (launch 1 refl refl (omega arith)))

pool_bound_example :
    (launched.active + launched.leaving ≤ 4)
    ⊎ ((launched.cancelled ≡ true) × (launched.active + launched.leaving ≤ 5))
pool_bound_example = pool_bound 4 2 reach_launched

pool_returns_example : (q : Pool) × Reach 4 launched q × (q.main ≡ returned)
pool_returns_example = pool_returns 4 2 launched (omega arith) reach_launched refl

cancelled_call_can_hang_example :
    (p : Pool) × Reach 4 (fresh 3) p × ((q : Pool) → Reach 4 p q → q.main ≢ returned)
cancelled_call_can_hang_example = cancelled_call_can_hang 4 2
