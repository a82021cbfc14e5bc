-- ===== src/Commands/Worker.antt =====
-- cmd/worker/main.go. Redis, MinIO, the conversion of JSON
-- numbers and the schema compiler are parameters.
pub mod Running
use log_morph.Common.{
  ℕ, zero, suc, String, Bool, true, false, Option, none, some, List, Error, Result, ok, err, ◌==◌,
}
use log_morph.Common.Integer.{ℤ, pos, negsuc}
use log_morph.Common.Integer.ParseInt.{parse_int}
use log_morph.Common.Text.{Unicode}
use log_morph.Context.{Context}
use log_morph.Models.{RawEvent, EventJson, UniversalEvent}
use log_morph.Models.Encoding.{event_json}
use log_morph.Common.Json.Parser.{valid}
use log_morph.Parsing.Json.Unmarshal.{unmarshal_log}
use log_morph.Buffer.{RawMessage, RawBuffer, default_raw_stream_name, default_group_name}
use log_morph.Buffer.Redis.{RedisRawBuffer, redis_buffer}
use log_morph.Idempotency.{redis_store}
use log_morph.Storage as Raws
use log_morph.Storage.{RawEventStore, new_memory_raw_store, memory_raw_store}
use log_morph.Storage.Minio.{ObjectStore, MinioRawStore, new_minio_store, minio_raw_store}
use log_morph.Detection.{DriftDetector}
use log_morph.Detection.Detect.{default_detector}
use log_morph.Detection.Drift.{analyze}
use log_morph.Parsing.{Registry, new_registry, register, engine_parse}
use log_morph.Parsing.Json.Schema.{JsonLogSchema}
use log_morph.Parsing.Json.{json_parser}
use log_morph.Parsing.Csv.{csv_parser}
use log_morph.Parsing.Syslog.{syslog_parser}
use log_morph.Normalization.{normalize}
use log_morph.Validation.{SchemaError, new_validator, schema_validator}
use log_morph.Worker as Workers
use log_morph.Worker.{Config, World, Environment, new_worker}
use log_morph.Worker.Action.{Action}
use log_morph.Worker.Loop.{start}
use log_morph.Commands.{Variables, variable_or, RedisClient, NewClient, new_redis_raw_buffer}

-- `raw.MinIOConfig`
pub record MinioConfig : Type 0 where
  pub endpoint : String
  pub access_key_id : String
  pub secret_access_key : String
  pub bucket_name : String
  pub use_ssl : Bool

-- `if claimIdleMs == 0 { claimIdleMs = 60000 }`
abbrev pub idle_ms : ℤ → ℤ
idle_ms (pos zero) = pos 60_000
idle_ms (pos (suc n)) = pos (suc n)
idle_ms (negsuc n) = negsuc n

module _ (getenv : Variables) where
  abbrev pub minio_config : MinioConfig
  minio_config = record {
    endpoint = variable_or getenv "MINIO_ENDPOINT" "localhost:9000";
    access_key_id = variable_or getenv "MINIO_ACCESS_KEY" "minioadmin";
    secret_access_key = variable_or getenv "MINIO_SECRET_KEY" "minioadminpassword";
    bucket_name = variable_or getenv "MINIO_BUCKET" "raw-events";
    use_ssl = getenv "MINIO_USE_SSL" == "true";
  }

  -- the `worker.Config` that `main` fills in
  unfoldable pub worker_config : Config
  worker_config = record {
    stream_name = variable_or getenv "RAW_STREAM_NAME" default_raw_stream_name;
    group_name = variable_or getenv "CONSUMER_GROUP" default_group_name;
    consumer_name = variable_or getenv "CONSUMER_NAME" "worker-1";
    claim_idle_ms = idle_ms (parse_int (getenv "RAW_EVENT_CLAIM_IDLE_MS"));
    lock_ttl_seconds = parse_int (getenv "IDEMPOTENCY_LOCK_TTL_S");
    done_ttl_seconds = parse_int (getenv "IDEMPOTENCY_DONE_TTL_S");
    batch_size = parse_int (getenv "WORKER_BATCH_SIZE");
    concurrency = parse_int (getenv "WORKER_CONCURRENCY");
  }

-- how `main` ends: by `log.Fatalf`, or after `Start`
pub data Exit : Type 0 where
  fatal : Error → Exit
  stopped : Option Error → Exit

-- what `main` gets from outside the repository, over the states B of the streams, I of the keys
-- and M of the object store
pub record Outside (B I M : Type 0) : Type 1 where
  pub new_client : NewClient B I
  pub minio_new : MinioConfig → Result (ObjectStore M)
  pub unicode : Unicode
  pub to_int : String → Option ℤ
  pub Json : Type 0
  pub unmarshal_json : String → Result Json
  pub marshal_event : UniversalEvent → Result String
  pub read_file : String → Result String
  pub embedded_schema : String
  pub Compiler : Type 0
  pub add_resource : String → String → Result Compiler
  pub compile : Compiler → String → Result (Json → Option SchemaError)

-- the registry with the three parsers
unfoldable pub standard_registry : Unicode → (String → Result JsonLogSchema) → Registry
standard_registry u unmarshal =
    register u
      (register u (register u new_registry (some (syslog_parser u)))
        (some (json_parser u unmarshal)))
      (some (csv_parser u))

module _ {M : Type 0} where
  -- `rawStore` holds either implementation; the state has a part for each
  abbrev over_minio : RawEventStore M → RawEventStore (M × Raws.Memory)
  over_minio store = record {
    put = λ event (m, r). let (e, m') = store.put event m in (e, (m', r));
    get = λ id (m, r). let (e, m') = store.get id m in (e, (m', r));
  }

  abbrev over_memory : RawEventStore Raws.Memory → RawEventStore (M × Raws.Memory)
  over_memory store = record {
    put = λ event (m, r). let (e, r') = store.put event r in (e, (m, r'));
    get = λ id (m, r). let (e, r') = store.get id r in (e, (m, r'));
  }

  -- MinIO, or the memory store when MinIO cannot be set up
  unfoldable pub choose_raw_store :
      EventJson → Result (MinioRawStore M) → RawEventStore (M × Raws.Memory)
  choose_raw_store json (ok store) = over_minio (minio_raw_store json store)
  choose_raw_store json (err _) = over_memory memory_raw_store

-- The loop that waits for Redis: at most `fuel` pings. The Bool tells whether one was answered.
abbrev if_answered : {B : Type 0} → Option Error → B → Bool × B → Bool × B
if_answered none b rest = (true, b)
if_answered (some _) b rest = rest

unfoldable pub wait_for_redis : {B : Type 0} → RawBuffer B → ℕ → B → Bool × B
wait_for_redis buffer zero b = (false, b)
wait_for_redis buffer (suc fuel) b =
    let (e, b') = buffer.ping b in let rest = wait_for_redis buffer fuel b' in if_answered e b' rest

module _ {B I M : Type 0} (getenv : Variables) (out : Outside B I M) where
  -- the `worker.NewWorker` call of `main`
  unfoldable pub main_worker :
      RedisRawBuffer B
      → RedisClient B I
      → Result (MinioRawStore M)
      → (out.Json → Option SchemaError)
      → Workers.Worker B I (M × Raws.Memory)
  unfolding worker_config choose_raw_store standard_registry
  main_worker raw_buffer rdb minio_store schema =
      new_worker (redis_buffer event_json raw_buffer) (some (redis_store rdb.keys))
        (some (choose_raw_store event_json minio_store)) (default_detector out.unicode valid)
        (record { analyze = analyze out.unicode })
        (engine_parse out.unicode (standard_registry out.unicode (unmarshal_log out.to_int)))
        normalize (schema_validator out.unmarshal_json schema out.marshal_event)
        (worker_config getenv)

  module _ (env : Environment) (ticks : ℕ → ℕ)
      (parallel : List RawMessage → Action B I (M × Raws.Memory) (Option (Unit {0}))) where
    abbrev Servers : Type 0
    Servers = World B I (M × Raws.Memory)

    abbrev after_start : Option (Option Error) → Option Exit
    after_start none = none
    after_start (some e) = some (stopped e)

    -- from the validator on
    started :
        RedisRawBuffer B
        → RedisClient B I
        → Result (MinioRawStore M)
        → Result (out.Json → Option SchemaError)
        → ℕ
        → Servers
        → Option Exit × Servers
    unfolding main_worker
    started raw_buffer rdb minio_store (err e) rounds s = (some (fatal e), s)
    started raw_buffer rdb minio_store (ok schema) rounds s =
        let (e, s') =
          start env (main_worker raw_buffer rdb minio_store schema) ticks parallel rounds s in
        (after_start e, s')

    -- after a ping that was answered: the raw stores, and the rest
    connected : RedisRawBuffer B → RedisClient B I → ℕ → Servers → Option Exit × Servers
    unfolding started
    connected raw_buffer rdb rounds s =
        let cfg = minio_config getenv in
        let (minio_store, m) = new_minio_store (out.minio_new cfg) cfg.bucket_name s.raws.0 in
        started raw_buffer rdb minio_store
          (new_validator out.read_file out.embedded_schema out.add_resource out.compile "") rounds
          (record s { raws = (m, (new_memory_raw_store, s.raws.1.1)) })

    after_wait : RedisRawBuffer B → RedisClient B I → ℕ → Bool → Servers → Option Exit × Servers
    unfolding connected
    after_wait raw_buffer rdb rounds false s = (none, s)
    after_wait raw_buffer rdb rounds true s = connected raw_buffer rdb rounds s

    -- `main`, with at most `pings` pings and `rounds` rounds of `Start`; `none` when they are not
    -- enough, or when a call of the concurrent branch never returns. Signals are the cancellation of the context.
    unfoldable pub worker_main : (pings rounds : ℕ) → Servers → Option Exit × Servers
    unfolding after_wait wait_for_redis
    worker_main pings rounds s =
        let (raw_buffer, rdb) =
          new_redis_raw_buffer out.new_client (variable_or getenv "REDIS_ADDR" "localhost:6379")
            (getenv "REDIS_PASSWORD") 0 (parse_int (getenv "RAW_EVENT_STREAM_MAXLEN")) in
        let (answered, b) = wait_for_redis (redis_buffer event_json raw_buffer) pings s.buffer in
        after_wait raw_buffer rdb rounds answered (record s { buffer = b })
