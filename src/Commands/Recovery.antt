-- ===== src/Commands/Recovery.antt =====
-- The crash recovery of the worker that cmd/worker/main.go makes.
use log_morph.Common.{zero, suc, ◌*◌, ◌≤◌, ◌≡◌, refl, Result, arith, Option, if◌then◌else◌}
use log_morph.Common.Integer.{ℤ, pos, negsuc, int64, is_positive}
use log_morph.Common.Integer.ParseInt.{parse_int}
use log_morph.Buffer.Redis.{RedisRawBuffer}
use log_morph.Storage.Minio.{MinioRawStore}
use log_morph.Validation.{SchemaError}
use log_morph.Worker.{new_worker, duration, second, millisecond}
use log_morph.Commands.{Variables, RedisClient}
use log_morph.Commands.Worker.{Outside, main_worker, worker_config, idle_ms}

-- At most as many milliseconds as have their nanoseconds in an int64.
abbrev pub FitsMilliseconds : ℤ → Type 0
FitsMilliseconds (pos n) = n ≤ 9_223_372_036_854
FitsMilliseconds (negsuc _) = Unit

-- The nanoseconds that a message must be idle for, of RAW_EVENT_CLAIM_IDLE_MS; zero for no recovery.
abbrev pub idle_time : ℤ → ℤ
idle_time (pos zero) = pos (60 * second)
idle_time (pos (suc n)) = pos (suc n * millisecond)
idle_time (negsuc _) = pos 0

by_value :
    (n : ℤ)
    → FitsMilliseconds n
    → (if is_positive (idle_ms n) then duration (idle_ms n) millisecond else pos 0) ≡ idle_time n
unfolding int64
by_value (pos zero) fits = refl
by_value (pos (suc n)) fits = ground arith
by_value (negsuc n) fits = refl

module _ {B I M : Type 0} (getenv : Variables) (out : Outside B I M) where
  -- The idle time is that of the value which `ParseInt` gives for RAW_EVENT_CLAIM_IDLE_MS, if that is at
  -- most 9223372036854, so that its nanoseconds fit an int64: the value 0 means 60 seconds, a positive
  -- one as many milliseconds, and only a negative one turns crash recovery off.
  pub main_claim_idle_exact :
      (raw_buffer : RedisRawBuffer B) (rdb : RedisClient B I)
      (minio_store : Result (MinioRawStore M)) (schema : out.Json → Option SchemaError)
      → FitsMilliseconds (parse_int (getenv "RAW_EVENT_CLAIM_IDLE_MS"))
      → (main_worker getenv out raw_buffer rdb minio_store schema).claim_idle_time
        ≡ idle_time (parse_int (getenv "RAW_EVENT_CLAIM_IDLE_MS"))
  unfolding main_worker new_worker worker_config
  main_claim_idle_exact raw_buffer rdb minio_store schema fits =
      by_value (parse_int (getenv "RAW_EVENT_CLAIM_IDLE_MS")) fits
