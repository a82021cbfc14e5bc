-- ===== src/Tests/Stores.antt =====
-- The in-memory raw store and its clients.
use log_morph.Common.{String, ◌≡◌, refl, some, List, [], ◌∷◌, arith, eqb, eq_iff}
use log_morph.Common.GoMap.{get, put}
use log_morph.Idempotency.{redis_store, redis_mark_done}
use log_morph.Idempotency.Lawful.{IsLawful}
use log_morph.Idempotency.Redis.{redis_views, redis_store-IsLawful}
use log_morph.Common.Integer.{ℤ}
use log_morph.Storage.{new_memory_raw_store, put_raw}
use log_morph.Storage.Clients.{
  System, Op, assign, store_put, store_get, run_op, run, view, IsSeparate, archived, with_event,
}
use log_morph.Storage.Immutability.{put_refines_map, archive_immutable}
use log_morph.Tests.Fixtures.{sample_event, server, server-IsRedis, Keys}

-- One event at address 0, which the client holds, and an empty store.
abbrev client : System
client = record {
  store = new_memory_raw_store;
  heap = record { cells = λ p. sample_event; next = 1 };
  held = λ p. eqb p 0;
}

client-IsSeparate : IsSeparate client
unfolding get
client-IsSeparate = record { owned = λ k p found. cc; allocated = λ p held. ground arith }

-- the event is archived; the store's copy is at address 1
abbrev archived_once : System
archived_once = record {
  store = record { events = ("evt_1", 1) ∷ [] };
  heap = record { cells = λ p. sample_event; next = 2 };
  held = λ p. eqb p 0;
}

archived_once-IsSeparate : IsSeparate archived_once
unfolding get
archived_once-IsSeparate = record {
  owned = λ k p found. ground (arith, eq_iff "evt_1" k);
  allocated = λ p held. ground arith;
}

put_refines_map_example :
    IsSeparate (run_op client (store_put (some 0)))
    × ((k : String)
        → view (run_op client (store_put (some 0))) k
          ≡ with_event (archived client (store_put (some 0))) (view client) k)
put_refines_map_example = put_refines_map client (store_put (some 0)) client-IsSeparate

-- The client gets a copy, and overwrites the event that it archived and the copy.
abbrev tampering : List Op
tampering =
    store_get "evt_1"
    ∷ assign 0 (record sample_event { payload = "forged" })
    ∷ assign 2 (record sample_event { payload = "forged" })
    ∷ []

archive_immutable_example : view (run archived_once tampering) "evt_1" ≡ view archived_once "evt_1"
archive_immutable_example =
    archive_immutable archived_once tampering "evt_1" archived_once-IsSeparate
      (refl, (refl, (refl, tt)))

redis_store-IsLawful_example :
    IsLawful (redis_store server) (redis_views server server-IsRedis)
    × ((id : String) (ttl : ℤ) (s : Keys) (j : String)
        → (redis_views server server-IsRedis).locked (redis_mark_done server id ttl s).1 j
          ≡ (redis_views server server-IsRedis).locked s j)
redis_store-IsLawful_example = redis_store-IsLawful server server-IsRedis

-- A second `Put` under the same id replaces what is archived.
put_again :
    view
      (run client (
        store_put (some 0)
        ∷ assign 0 (record sample_event { payload = "new" })
        ∷ store_put (some 0)
        ∷ []))
      "evt_1"
    ≡ some (record sample_event { payload = "new" })
unfolding run run_op view put get put_raw
put_again = refl
