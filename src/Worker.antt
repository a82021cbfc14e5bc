-- ===== src/Worker.antt =====
-- internal/worker/worker.go: the worker, its configuration, and the state that it works on
pub mod Action
pub mod Pipeline
pub mod Message
pub mod Concurrent
pub mod Pool
pub mod Settings
pub mod Loop
use log_morph.Common.{ℕ, ◌*◌, String, Bool, Option, none, some, Result, ltb, ◌==◌, if◌then◌else◌}
use log_morph.Common.Integer.{ℤ, pos, negsuc, int64, is_positive}
use log_morph.Context.{Context}
use log_morph.Models.{RawEvent, DetectionResult, ParsedEvent, UniversalEvent, Readings}
use log_morph.Buffer.{RawBuffer, default_raw_stream_name, default_group_name}
use log_morph.Idempotency.{IdempotencyStore}
use log_morph.Storage.{RawEventStore}
use log_morph.Detection.{Detector, DriftDetector}
use log_morph.Validation.{Validator}

-- `parsing.Engine`
abbrev pub Engine : Type 0
Engine = Readings → RawEvent → DetectionResult → Result (Option ParsedEvent)

-- `normalization.Normalizer`, with the uuid that it may draw
abbrev pub Normalizer : Type 0
Normalizer =
    Readings → String → RawEvent → Option ParsedEvent → DetectionResult → Result UniversalEvent

-- `Config`
pub record Config : Type 0 where
  pub stream_name : String
  pub group_name : String
  pub consumer_name : String
  pub claim_idle_ms : ℤ
  pub lock_ttl_seconds : ℤ
  pub done_ttl_seconds : ℤ
  pub batch_size : ℤ
  pub concurrency : ℤ

-- `Worker`, over the states of the buffer, the idempotency store and the raw store. The last two
-- may be nil.
pub record Worker (B I R : Type 0) : Type 0 where
  pub buffer : RawBuffer B
  pub idempotency : Option (IdempotencyStore I)
  pub raw_store : Option (RawEventStore R)
  pub detector : Detector
  pub drift_detector : DriftDetector
  pub parser_engine : Engine
  pub normalizer : Normalizer
  pub validator : Validator
  pub stream_name : String
  pub group_name : String
  pub consumer_name : String
  pub claim_idle_time : ℤ
  pub lock_ttl : ℤ
  pub done_ttl : ℤ
  pub batch_size : ℤ
  pub concurrency : ℤ

-- `time.Duration(n) * unit` for a positive n: an int64 number of nanoseconds, which wraps
abbrev pub duration : ℤ → ℕ → ℤ
duration (pos n) unit = int64 (n * unit)
duration (negsuc n) unit = negsuc n

abbrev pub second : ℕ
second = 1_000_000_000

abbrev pub millisecond : ℕ
millisecond = 1_000_000

abbrev pub or_default : ℤ → ℕ → ℤ
or_default n default = if is_positive n then n else pos default

abbrev pub or_name : String → String → String
or_name s default = if s == "" then default else s

module _ {B I R : Type 0} where
  -- `NewWorker`
  unfoldable pub new_worker :
      RawBuffer B
      → Option (IdempotencyStore I)
      → Option (RawEventStore R)
      → Detector
      → DriftDetector
      → Engine
      → Normalizer
      → Validator
      → Config
      → Worker B I R
  new_worker buf idempotency raw_store detector drift_detector engine normalizer validator cfg =
      record {
        buffer = buf;
        idempotency = idempotency;
        raw_store = raw_store;
        detector = detector;
        drift_detector = drift_detector;
        parser_engine = engine;
        normalizer = normalizer;
        validator = validator;
        stream_name = or_name cfg.stream_name default_raw_stream_name;
        group_name = or_name cfg.group_name default_group_name;
        consumer_name = or_name cfg.consumer_name "worker-1";
        claim_idle_time =
            if is_positive cfg.claim_idle_ms then duration cfg.claim_idle_ms millisecond else pos 0;
        lock_ttl = duration (or_default cfg.lock_ttl_seconds 120) second;
        done_ttl = duration (or_default cfg.done_ttl_seconds 86400) second;
        batch_size = or_default cfg.batch_size 10;
        concurrency = or_default cfg.concurrency 4;
      }

-- What the worker changes or reads from outside: the three stores, the context, and how many
-- components have been called, which says what readings of the clock and what uuid come next.
pub record World (B I R : Type 0) : Type 0 where
  pub buffer : B
  pub idem : I
  pub raws : R
  pub ctx : Context
  pub calls : ℕ

-- The clock and the uuids that the calls meet, in order.
pub record Environment : Type 0 where
  pub clock : ℕ → Readings
  pub uuid : ℕ → String
