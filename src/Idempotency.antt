-- ===== src/Idempotency.antt =====
-- internal/buffer/idempotency.go: the interface, the in-memory store, and the Redis store over the
-- commands that it sends.
pub mod Lawful
pub mod Redis
use log_morph.Common.{
  ℕ, ◌<◌, String, Bool, true, false, Option, none, some, Error, Result, ok, err, ltb, if◌then◌else◌,
}
use log_morph.Common.Text.{◌+++◌}
use log_morph.Common.Integer.{ℤ}
use log_morph.Common.GoMap.{Map, empty, get, put, delete, get_or}

-- `IdempotencyStore`, over its state I
pub record IdempotencyStore (I : Type 0) : Type 0 where
  pub try_claim_processing : (event_id : String) (ttl : ℤ) → I → Result Bool × I
  pub release_processing : (event_id : String) → I → Option Error × I
  pub mark_done : (event_id : String) (ttl : ℤ) → I → Option Error × I
  pub is_done : (event_id : String) → I → Result Bool × I

-- `MemoryIdempotencyStore`
pub record Memory : Type 0 where
  pub processing : Map Bool
  pub done : Map Bool

abbrev pub new_memory : Memory
new_memory = record { processing = empty; done = empty }

-- `m.processing[eventID]`, `m.done[eventID]`
abbrev pub flag : Map Bool → String → Bool
flag m event_id = get_or false (get m event_id)

unfoldable pub memory_try_claim : String → ℤ → Memory → Result Bool × Memory
memory_try_claim event_id _ m =
    if flag m.processing event_id
    then (ok false, m)
    else (ok true, record m { processing = put m.processing event_id true })

unfoldable pub memory_release : String → Memory → Option Error × Memory
memory_release event_id m = (none, record m { processing = delete m.processing event_id })

unfoldable pub memory_mark_done : String → ℤ → Memory → Option Error × Memory
memory_mark_done event_id _ m =
    (none, record { processing = delete m.processing event_id; done = put m.done event_id true })

unfoldable pub memory_is_done : String → Memory → Result Bool × Memory
memory_is_done event_id m = (ok (flag m.done event_id), m)

abbrev pub memory_store : IdempotencyStore Memory
memory_store = record {
  try_claim_processing = memory_try_claim;
  release_processing = memory_release;
  mark_done = memory_mark_done;
  is_done = memory_is_done;
}

-- The Redis commands that `RedisIdempotencyStore` sends, over the state S of the server.
pub record RedisKeys (S : Type 0) : Type 0 where
  pub set_nx : (key : String) (ttl : ℤ) → S → Result Bool × S
  pub set_key : (key : String) (ttl : ℤ) → S → Option Error × S
  pub del : (key : String) → S → Option Error × S
  pub exists : (key : String) → S → Result ℕ × S

abbrev pub default_proc_key_prefix : String
default_proc_key_prefix = "ulpf:proc:"

abbrev pub default_done_key_prefix : String
default_done_key_prefix = "ulpf:done:"

module _ {S : Type 0} (client : RedisKeys S) where
  unfoldable pub redis_try_claim : String → ℤ → S → Result Bool × S
  redis_try_claim event_id ttl = client.set_nx (default_proc_key_prefix +++ event_id) ttl

  unfoldable pub redis_release : String → S → Option Error × S
  redis_release event_id = client.del (default_proc_key_prefix +++ event_id)

  unfoldable pub redis_mark_done : String → ℤ → S → Option Error × S
  redis_mark_done event_id ttl = client.set_key (default_done_key_prefix +++ event_id) ttl

  abbrev is_counted : Result ℕ → Result Bool
  is_counted (ok n) = ok (ltb 0 n)
  is_counted (err e) = err e

  unfoldable pub redis_is_done : String → S → Result Bool × S
  redis_is_done event_id s =
      let (n, s') = client.exists (default_done_key_prefix +++ event_id) s in (is_counted n, s')

  abbrev pub redis_store : IdempotencyStore S
  redis_store = record {
    try_claim_processing = redis_try_claim;
    release_processing = redis_release;
    mark_done = redis_mark_done;
    is_done = redis_is_done;
  }
