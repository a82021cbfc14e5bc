-- ===== src/Worker/Settings.antt =====
-- What `NewWorker` makes of its configuration.
use log_morph.Common.{
  ℕ, ◌*◌, ◌≤◌, ◌<◌, String, ◌≡◌, ◌≢◌, refl, Option, arith, ◌==◌, eq_iff, ltb, Bool-cases, inl, inr,
  false,
}
use log_morph.Common.Integer.{ℤ, pos, negsuc, IsPositive, int64}
use log_morph.Buffer.{RawBuffer}
use log_morph.Idempotency.{IdempotencyStore}
use log_morph.Storage.{RawEventStore}
use log_morph.Detection.{Detector, DriftDetector}
use log_morph.Validation.{Validator}
use log_morph.Worker.{
  Engine, Normalizer, Config, Worker, new_worker, or_default, or_name, duration, second,
}

-- A number of seconds whose nanoseconds fit an int64, or one that stands for the default.
abbrev pub FitsDuration : ℤ → Type 0
FitsDuration (pos n) = n ≤ 9223372036
FitsDuration (negsuc _) = Unit

duration-IsPositive : (n : ℕ) → 0 < n → n ≤ 9223372036 → IsPositive (int64 (n * second))
unfolding int64
duration-IsPositive n p q = ground arith

ttl-IsPositive :
    (n : ℤ) (d : ℕ)
    → 0 < d
    → d ≤ 9223372036
    → FitsDuration n
    → IsPositive (duration (or_default n d) second)
ttl-IsPositive (pos n) d p q fits = elim (Bool-cases (ltb 0 n)) [
  | inl given ↦ rw given (duration-IsPositive n (ground arith) fits)
  | inr unset ↦ rw unset (duration-IsPositive d p q)
]
ttl-IsPositive (negsuc n) d p q fits = duration-IsPositive d p q

ttl_negative :
    (n d : ℕ)
    → 9223372037 ≤ n
    → n ≤ 18446744073
    → ¬ IsPositive (duration (or_default (pos n) d) second)
unfolding int64
ttl_negative n d low high positive = absurd (ground arith)

or_default-IsPositive : (n : ℤ) (d : ℕ) → 0 < d → IsPositive (or_default n d)
or_default-IsPositive (pos n) d p = ground arith
or_default-IsPositive (negsuc n) d p = p

or_name-ne-empty : (s default : String) → default ≢ "" → or_name s default ≢ ""
or_name-ne-empty s default h = ground (arith, eq_iff s "")

-- the default names are not empty
literal : {s : String} → (s == "") ≡ false → s ≢ ""
literal {s} h = ground (arith, eq_iff s "")

pub record IsUsable {B I R : Type 0} (w : Worker B I R) : Type 0 where
  pub batch_size : IsPositive w.batch_size
  pub concurrency : IsPositive w.concurrency
  pub lock_ttl : IsPositive w.lock_ttl
  pub done_ttl : IsPositive w.done_ttl
  pub stream_name : w.stream_name ≢ ""
  pub group_name : w.group_name ≢ ""
  pub consumer_name : w.consumer_name ≢ ""

-- Whatever the configuration leaves out or sets to zero or less, a new worker has a positive batch
-- size and concurrency and no empty name; its two TTLs are positive too, if the configured seconds
-- are at most 9223372036.
pub new_worker-IsUsable :
    {B I R : Type 0} (buf : RawBuffer B) (idempotency : Option (IdempotencyStore I))
    (raw_store : Option (RawEventStore R)) (detector : Detector) (drift : DriftDetector)
    (engine : Engine) (normalizer : Normalizer) (validator : Validator) (cfg : Config)
    → FitsDuration cfg.lock_ttl_seconds
    → FitsDuration cfg.done_ttl_seconds
    → IsUsable (new_worker buf idempotency raw_store detector drift engine normalizer validator cfg)
unfolding new_worker
new_worker-IsUsable buf idempotency raw_store detector drift engine normalizer validator cfg lock
      done =
    record {
      batch_size = or_default-IsPositive cfg.batch_size 10 (omega arith);
      concurrency = or_default-IsPositive cfg.concurrency 4 (omega arith);
      lock_ttl = ttl-IsPositive cfg.lock_ttl_seconds 120 (omega arith) (omega arith) lock;
      done_ttl = ttl-IsPositive cfg.done_ttl_seconds 86400 (omega arith) (omega arith) done;
      stream_name = or_name-ne-empty cfg.stream_name _ (literal refl);
      group_name = or_name-ne-empty cfg.group_name _ (literal refl);
      consumer_name = or_name-ne-empty cfg.consumer_name _ (literal refl);
    }

-- A configured lock TTL of 9223372037 up to 18446744073 seconds overflows the int64 of
-- nanoseconds: the worker's TTL is negative.
pub lock_ttl_overflows :
    {B I R : Type 0} (buf : RawBuffer B) (idempotency : Option (IdempotencyStore I))
    (raw_store : Option (RawEventStore R)) (detector : Detector) (drift : DriftDetector)
    (engine : Engine) (normalizer : Normalizer) (validator : Validator) (cfg : Config) (n : ℕ)
    → cfg.lock_ttl_seconds ≡ pos n
    → 9223372037 ≤ n
    → n ≤ 18446744073
    → ¬ IsPositive
        (new_worker buf idempotency raw_store detector drift engine normalizer validator
          cfg).lock_ttl
unfolding new_worker
lock_ttl_overflows buf idempotency raw_store detector drift engine normalizer validator cfg n given
      low high =
    rw given (ttl_negative n 120 low high)
