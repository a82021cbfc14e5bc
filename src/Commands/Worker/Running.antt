-- ===== src/Commands/Worker/Running.antt =====
-- `main` of cmd/worker comes to its end.
use log_morph.Common.{
  ℕ, zero, suc, ◌<◌, ◌≡◌, refl, true, Option, none, some, List, Error, Result, ok, err, wrap, arith,
  if◌then◌else◌, Option-cases, inl, inr,
}
use mathlib.Core.Option.{map as map_option}
use log_morph.Common.Integer.{ℤ, pos, is_positive, is_above}
use log_morph.Common.Integer.ParseInt.{parse_int}
use log_morph.Models.Encoding.{event_json}
use log_morph.Context.{after, IsNoLater}
use log_morph.Buffer.{RawMessage, RawBuffer, default_raw_stream_name, default_group_name}
use log_morph.Buffer.Redis.{RedisRawBuffer, redis_buffer}
use log_morph.Storage as Raws
use log_morph.Storage.Minio.{MinioRawStore}
use log_morph.Detection.Drift.{analyze-IsNoLater}
use log_morph.Validation.{SchemaError, new_validator}
use log_morph.Worker.{World, Environment, new_worker, or_name}
use log_morph.Worker.Action.{Action}
use log_morph.Worker.Pipeline.Cancellation.{KeepsContext}
use log_morph.Worker.Loop.Termination.{start_returns}
use log_morph.Worker.Loop.Returns.{Returns}
use log_morph.Commands.{Variables, variable_or, RedisClient, new_redis_raw_buffer}
use log_morph.Commands.Worker.{
  Outside, Exit, fatal, stopped, main_worker, worker_config, worker_main, wait_for_redis, started,
  after_wait, connected,
}

module _ {B : Type 0} (buffer : RawBuffer B) where
  -- the server after n pings
  abbrev pub pinged : ℕ → B → B
  pinged zero b = b
  pinged (suc n) b = pinged n (buffer.ping b).1

  -- The loop that waits for Redis ends with the first ping that is answered.
  pub wait-answered :
      (n pings : ℕ) (b : B)
      → n < pings
      → (buffer.ping (pinged n b)).0 ≡ none
      → (wait_for_redis buffer pings b).0 ≡ true
  unfolding wait_for_redis
  wait-answered n zero b below answered = absurd (omega arith)
  wait-answered zero (suc pings) b below answered = rw answered refl
  wait-answered (suc n) (suc pings) b below answered = elim (Option-cases (buffer.ping b).0) [
    | inl live ↦ rw live refl
    | inr (e, silent) ↦ rw silent (wait-answered n pings (buffer.ping b).1 (omega arith) answered)
  ]

module _ {B I M : Type 0} (getenv : Variables) (out : Outside B I M) (env : Environment)
    (ticks : ℕ → ℕ)
    (parallel : List RawMessage → Action B I (M × Raws.Memory) (Option (Unit {0}))) where
  abbrev pub redis : RedisRawBuffer B × RedisClient B I
  redis =
      new_redis_raw_buffer out.new_client (variable_or getenv "REDIS_ADDR" "localhost:6379")
        (getenv "REDIS_PASSWORD") 0 (parse_int (getenv "RAW_EVENT_STREAM_MAXLEN"))

  abbrev pub stream_buffer : RawBuffer B
  stream_buffer = redis_buffer event_json redis.0

  -- the error of `EnsureGroup` on this state of the server
  abbrev pub ensured : B → Option Error
  ensured b =
      let cfg = worker_config getenv in
      (stream_buffer.ensure_group (or_name cfg.stream_name default_raw_stream_name)
        (or_name cfg.group_name default_group_name) b).0

  -- how `main` ends, by the compiled schema and the error of `EnsureGroup`
  abbrev pub exit_after : Result (out.Json → Option SchemaError) → Option Error → Exit
  exit_after (err e) failed = fatal e
  exit_after (ok _) failed = stopped (map_option (wrap "failed to ensure consumer group") failed)

  -- how many messages the worker handles at once: WORKER_CONCURRENCY, or 4 if that is not positive
  abbrev pub concurrency : ℤ
  concurrency =
      let n = parse_int (getenv "WORKER_CONCURRENCY") in if is_positive n then n else pos 4

  module _
      (returning : is_above concurrency 1 ≡ true
        → (msgs : List RawMessage) (s : World B I (M × Raws.Memory)) → Returns (parallel msgs) s)
      (parallel_keeps : is_above concurrency 1 ≡ true
        → (msgs : List RawMessage) (s : World B I (M × Raws.Memory))
        → IsNoLater s.ctx (parallel msgs s).1.ctx) where
    main_worker-KeepsContext :
        (minio_store : Result (MinioRawStore M)) (schema : out.Json → Option SchemaError)
        → KeepsContext (main_worker getenv out redis.0 redis.1 minio_store schema)
    unfolding main_worker new_worker
    main_worker-KeepsContext minio_store schema = analyze-IsNoLater out.unicode

    started_returns :
        (minio_store : Result (MinioRawStore M)) (schema : Result (out.Json → Option SchemaError))
        (n : ℕ) (s : World B I (M × Raws.Memory))
        → IsNoLater (after n) s.ctx
        → (started getenv out env ticks parallel redis.0 redis.1 minio_store schema (suc n) s).0
          ≡ some (exit_after schema (ensured s.buffer))
    unfolding started main_worker new_worker worker_config
    started_returns minio_store (err e) n s p = refl
    started_returns minio_store (ok schema) n s p =
        rw
          (start_returns env (main_worker getenv out redis.0 redis.1 minio_store schema)
            (main_worker-KeepsContext minio_store schema) ticks parallel returning parallel_keeps n
            s p)
          refl

    -- If Redis answers one of the pings that are made, and the context is cancelled after n more
    -- polls, `main` ends within n + 1 rounds of `Start`: fatally if the schema does not compile, and
    -- otherwise with the error of `EnsureGroup`, if it failed. Where
    -- WORKER_CONCURRENCY, or 4 if it is not positive, is above 1, assumed is that every call of the
    -- concurrent branch returns and does not put off the cancellation.
    pub worker_main_returns :
        (k pings n : ℕ) (s : World B I (M × Raws.Memory))
        → k < pings
        → (stream_buffer.ping (pinged stream_buffer k s.buffer)).0 ≡ none
        → IsNoLater (after n) s.ctx
        → (worker_main getenv out env ticks parallel pings (suc n) s).0
          ≡ some (
              exit_after
                (new_validator out.read_file out.embedded_schema out.add_resource out.compile "")
                (ensured (wait_for_redis stream_buffer pings s.buffer).1))
    unfolding worker_main after_wait connected
    worker_main_returns k pings n s below answered p =
        rw (wait-answered stream_buffer k pings s.buffer below answered) (started_returns _ _ n _ p)
