-- ===== src/Commands.antt =====
-- cmd: what the two programs read from their environment, and what they build of it
pub mod Worker
pub mod Registry
pub mod Ingestion
pub mod HandOver
pub mod Recovery
pub mod Unparsable
pub mod Parsable
use log_morph.Common.{ℕ, String, Option, none, some, Error, ◌==◌, if◌then◌else◌}
use log_morph.Buffer.Redis.{RedisStreams, RedisRawBuffer}
use log_morph.Common.Integer.{ℤ}
use log_morph.Idempotency.{RedisKeys}

-- `os.Getenv`: an unset variable is the empty text
abbrev pub Variables : Type 0
Variables = String → String

-- `v := os.Getenv(name); if v == "" { v = fallback }`
abbrev pub variable_or : Variables → String → String → String
variable_or getenv name fallback = if getenv name == "" then fallback else getenv name

-- `goredis.Client`: its stream commands and its key commands, over states of their own
pub record RedisClient (B I : Type 0) : Type 0 where
  pub streams : RedisStreams B
  pub keys : RedisKeys I

-- `goredis.NewClient` on `goredis.Options`
abbrev pub NewClient : Type 0 → Type 0 → Type 0
NewClient B I = (addr password : String) (db : ℕ) → RedisClient B I

-- `NewRedisRawBuffer`, whose error is always nil, with the client that it has made
abbrev pub new_redis_raw_buffer :
    {B I : Type 0}
    → NewClient B I
    → (addr password : String) (db : ℕ) (max_len : ℤ) → RedisRawBuffer B × RedisClient B I
new_redis_raw_buffer new_client addr password db max_len =
    let rdb = new_client addr password db in
    (record { client = rdb.streams; max_len = max_len }, rdb)
