-- ===== src/Tests/Logs.antt =====
-- A Redis server that keeps its entries and what was acknowledged, and a worker that reads from it.
use log_morph.Common.{
  ℕ, zero, suc, ◌+◌, String, ◌≡◌, refl, ap, Bool, true, ◌⊎◌, inl, inr, none, List, [], ◌∷◌, ◌++◌,
  All, ok, arith, false, eqb, ◌==◌, eq_iff, if◌then◌else◌, Bool-cases,
}
use log_morph.Common.Integer.{pos, int64}
use log_morph.Common.Json.Lexer.{lex}
use log_morph.Common.Json.Strings.{quote}
use log_morph.Common.Text.{trim_space, to_lower}
use log_morph.Common.GoMap.{Map, get, put, delete}
use log_morph.Context.{after}
use log_morph.Detection.Drift.{analyze}
use log_morph.Normalization.{normalize}
use log_morph.Models.Encoding.{event_json, marshal_event, unmarshal_event}
use log_morph.Buffer.Redis.{
  Value, XMessage, Reply, reply, nil_reply, RedisStreams, RedisRawBuffer, redis_buffer,
  redis_publish_raw, redis_read_group, redis_ensure_group, redis_claim_pending, redis_ack,
  parse_x_message, raw_messages,
}
use log_morph.Buffer.Redis.Log.{Log, IsLog, read_entries, redis_buffer-TracksAcks}
use log_morph.Idempotency.{
  Memory, memory_store, new_memory, memory_is_done, memory_try_claim, memory_mark_done,
  memory_release,
}
use log_morph.Idempotency.Lawful.{memory_store-IsLawful, memory_views}
use log_morph.Storage as Raws
use log_morph.Storage.{memory_put, memory_raw_store}
use log_morph.Worker.{Worker, World, new_worker}
use log_morph.Worker.Pipeline.{process_single_event}
use log_morph.Worker.Message.{process_message}
use log_morph.Worker.Message.Delivery.{guarded}
use log_morph.Worker.Loop.{process_each, process_messages, start}
use log_morph.Worker.Loop.Acked.{start_acks_done}
use log_morph.Worker.Action.{Action, pure}
use log_morph.Buffer.{RawMessage}
use log_morph.Common.{Option, some}
use log_morph.Tests.Fixtures.{
  environment, sample_event, good_engine, detector, drift_detector, validator, config, no_raws,
}

-- the id of the n-th entry, and its number
name : ℕ → String
name zero = ""
name (suc n) = String.◌∷◌ "1" (name n)

number : String → ℕ
number String.[] = 0
number (String.◌∷◌ c s) = suc (number s)

number-name : (n : ℕ) → number (name n) ≡ n
unfolding number name
number-name zero = refl
number-name (suc n) = ap suc (number-name n)

-- the values of every entry, how many were given to a consumer and how many were not yet
record Server : Type 0 where
  values : ℕ → Map Value
  given : ℕ
  waiting : ℕ
  acked : List String

mem : String → List String → Bool
mem j [] = false
mem j (x ∷ xs) = if x == j then true else mem j xs

-- n entries, from the one with the number k on
slice : (ℕ → Map Value) → ℕ → ℕ → List XMessage
unfolding name
slice values k zero = []
slice values k (suc n) = record { id = name k; values = values k } ∷ slice values (suc k) n

unacked : List String → List XMessage → List XMessage
unfolding mem
unacked acks [] = []
unacked acks (x ∷ xs) = let rest = unacked acks xs in if mem x.id acks then rest else x ∷ rest

abbrev answer : List XMessage → Reply (List (List XMessage))
answer [] = nil_reply
answer (m ∷ ms) = reply ((m ∷ ms) ∷ [])

abbrev set : (ℕ → Map Value) → ℕ → Map Value → ℕ → Map Value
set values n v k = if eqb k n then v else values k

abbrev client : RedisStreams Server
client = record {
  xadd = λ stream max_len approx v s. (
    ok (name (s.given + s.waiting)),
    record s { values = set s.values (s.given + s.waiting) v; waiting = suc s.waiting },
  );
  xgroup_create_mkstream = λ stream group start s. (none, s);
  xreadgroup = λ group consumer stream start count block s. (
    answer (slice s.values s.given s.waiting),
    record s { given = s.given + s.waiting; waiting = 0 },
  );
  xautoclaim = λ stream group consumer min_idle start count s.
      (reply (unacked s.acked (slice s.values 0 s.given)), s);
  xack = λ stream group ids s. (none, record s { acked = s.acked ++ ids });
  ping = λ s. (none, s);
  close = λ s. (none, s);
}

abbrev log : Log Server
log = record { is_acked = λ s j. mem j s.acked; values = λ s j. s.values (number j) }

mem_append :
    (id j : String) (xs : List String) → mem j (xs ++ id ∷ []) ≡ true → (id ≡ j) ⊎ (mem j xs ≡ true)
unfolding mem
mem_append id j [] h = inl (ground (arith, eq_iff id j))
mem_append id j (x ∷ xs) h = elim (Bool-cases (x == j)) [
  | inl same ↦ inr (rw same refl)
  | inr differ ↦ rw differ (mem_append id j xs (rw differ at h))
]

abbrev IsOf : (ℕ → Map Value) → XMessage → Type 0
IsOf values m = values (number m.id) ≡ m.values

slice_is : (values : ℕ → Map Value) (k n : ℕ) → All (IsOf values) (slice values k n)
unfolding slice
slice_is values k zero = tt
slice_is values k (suc n) = (ap values (number-name k), slice_is values (suc k) n)

unacked_is :
    (values : ℕ → Map Value) (acks : List String) (xs : List XMessage)
    → All (IsOf values) xs
    → All (IsOf values) (unacked acks xs)
unfolding unacked
unacked_is values acks [] h = tt
unacked_is values acks (x ∷ xs) (p, h) = elim (Bool-cases (mem x.id acks)) [
  | inl done ↦ rw done (unacked_is values acks xs h)
  | inr left ↦ rw left (p, unacked_is values acks xs h)
]

answered_is :
    (values : ℕ → Map Value) (xs : List XMessage)
    → All (IsOf values) xs
    → All (IsOf values) (read_entries (answer xs))
answered_is values [] h = tt
answered_is values (x ∷ xs) h = h

client-IsLog : (stream group : String) → IsLog client stream group log
client-IsLog stream group = record {
  xack_only = λ id s j. mem_append id j s.acked;
  xack_entries = λ id s j. refl;
  xgroup_create_log = λ start s. record { acks = λ j. refl; entries = λ j. refl };
  xreadgroup_log = λ consumer start count block s. record { acks = λ j. refl; entries = λ j. refl };
  xautoclaim_log =
      λ consumer min_idle start count s. record { acks = λ j. refl; entries = λ j. refl };
  xreadgroup_entries =
      λ consumer start count block s. answered_is s.values _ (slice_is s.values s.given s.waiting);
  xautoclaim_entries = λ consumer min_idle start count s.
      unacked_is s.values s.acked _ (slice_is s.values 0 s.given);
}

abbrev buffer : RedisRawBuffer Server
buffer = record { client = client; max_len = pos 0 }

abbrev worker : Worker Server Memory Raws.Memory
worker =
    new_worker (redis_buffer event_json buffer) (some memory_store) (some memory_raw_store) detector
      drift_detector good_engine normalize validator (record config { concurrency = pos 1 })

abbrev empty : Server
empty = record { values = λ n. []; given = 0; waiting = 0; acked = [] }

-- a stream with one event
abbrev published : Server
published = (redis_publish_raw event_json buffer "raw_events" sample_event empty).1

abbrev before : World Server Memory Raws.Memory
before = record { buffer = published; idem = new_memory; raws = no_raws; ctx = after 6; calls = 0 }

abbrev nobody : List RawMessage → Action Server Memory Raws.Memory (Option (Unit {0}))
nobody msgs = pure (some tt)

computes : Unit {0}
unfolding process_single_event process_message new_worker normalize analyze trim_space to_lower
    memory_try_claim memory_is_done memory_mark_done memory_release memory_put get put delete
    process_each process_messages start int64 redis_publish_raw redis_read_group redis_ensure_group
    redis_claim_pending redis_ack parse_x_message raw_messages marshal_event unmarshal_event lex
    name number mem slice unacked quote
computes = tt

abbrev ended : World Server Memory Raws.Memory
ended = (start environment (guarded worker memory_store) (λ n. n) nobody 7 before).1

start_acks_done_example : memory_views.done ended.idem "evt_1" ≡ true
unfolding computes
start_acks_done_example =
    start_acks_done environment worker memory_store memory_store-IsLawful
      (redis_buffer-TracksAcks event_json buffer worker.stream_name worker.group_name
        (client-IsLog _ _))
      (λ n. n) nobody refl 7 before (λ id acks. cc) "" refl
