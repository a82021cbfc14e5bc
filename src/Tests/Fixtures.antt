-- ===== src/Tests/Fixtures.antt =====
-- Small instances of what the program meets: a Redis server, a buffer that keeps lists, a worker.
use log_morph.Common.{
  String, ◌≡◌, refl, Bool, true, false, none, some, List, [], ◌∷◌, ◌++◌, Result, ok, err, message,
  arith, ◌==◌, eq_iff, is_none, not, if◌then◌else◌,
}
use log_morph.Common.Integer.{ℤ, pos}
use log_morph.Common.Text.{ascii}
use log_morph.Common.GoMap.{Map, get, put, delete, get-put, get-delete}
use log_morph.Context.{background}
use log_morph.Models.{RawEvent, ParsedEvent, DetectionResult, Readings}
use log_morph.Normalization.{normalize}
use log_morph.Buffer.{RawBuffer, RawMessage}
use log_morph.Idempotency.{Memory, memory_store, new_memory, RedisKeys}
use log_morph.Idempotency.Redis.{IsRedis}
use log_morph.Storage as Raws
use log_morph.Storage.{RawEventStore, memory_raw_store, new_memory_raw_store, Heap}
use log_morph.Detection.{Detector, DriftDetector}
use log_morph.Detection.Drift.{analyze}
use log_morph.Validation.{Validator}
use log_morph.Worker.{Worker, World, Environment, Engine, Config, new_worker}

-- a server that keeps its keys for ever
abbrev pub Keys : Type 0
Keys = Map Bool

abbrev pub is_present : Keys → String → Bool
is_present s k = not (is_none (get s k))

pub server_set_nx : String → ℤ → Keys → Result Bool × Keys
server_set_nx k ttl s = if is_present s k then (ok false, s) else (ok true, put s k true)

abbrev pub server : RedisKeys Keys
server = record {
  set_nx = server_set_nx;
  set_key = λ k ttl s. (none, put s k true);
  del = λ k s. (none, delete s k);
  exists = λ k s. (ok (if is_present s k then 1 else 0), s);
}

pub set_nx_answers :
    (k : String) (ttl : ℤ) (s : Keys)
    → (server_set_nx k ttl s).0 ≡ ok (if is_present s k then false else true)
unfolding server_set_nx
set_nx_answers k ttl s = ground arith

pub set_nx_sets :
    (k : String) (ttl : ℤ) (s : Keys) (j : String)
    → is_present (server_set_nx k ttl s).1 j ≡ (if k == j then true else is_present s j)
unfolding server_set_nx
set_nx_sets k ttl s j = ground (arith, get-put s k true j, eq_iff k j)

pub set_nx_refuses :
    (k : String) (ttl : ℤ) (s : Keys) → is_present s k ≡ true → (server_set_nx k ttl s).1 ≡ s
unfolding server_set_nx
set_nx_refuses k ttl s h = ground arith

pub set_sets :
    (k : String) (s : Keys) (j : String)
    → is_present (put s k true) j ≡ (if k == j then true else is_present s j)
set_sets k s j = ground (arith, get-put s k true j)

pub del_deletes :
    (k : String) (s : Keys) (j : String)
    → is_present (delete s k) j ≡ (if k == j then false else is_present s j)
del_deletes k s j = ground (arith, get-delete s k j)

abbrev pub server-IsRedis : IsRedis server
server-IsRedis = record {
  present = is_present;
  set_nx_answer = set_nx_answers;
  set_nx_present = set_nx_sets;
  set_nx_refused = set_nx_refuses;
  set_key_present = λ k ttl s j. set_sets k s j;
  del_present = del_deletes;
  exists_answer = λ k s. refl;
}

-- the events that were published and the ids that were acknowledged
pub record Stream : Type 0 where
  pub published : List RawEvent
  pub acknowledged : List String

abbrev pub stream_buffer : RawBuffer Stream
stream_buffer = record {
  publish_raw = λ stream e b. (ok "1-0", record b { published = b.published ++ e ∷ [] });
  ensure_group = λ stream group b. (none, b);
  read_group = λ stream group consumer count block b. (ok [], b);
  ack = λ stream group ids b. (none, record b { acknowledged = b.acknowledged ++ ids });
  claim_pending = λ stream group consumer min_idle count b. (ok [], b);
  ping = λ b. (none, b);
  close = λ b. (none, b);
}

abbrev pub no_stream : Stream
no_stream = record { published = []; acknowledged = [] }

abbrev pub sample_event : RawEvent
sample_event = record {
  event_id = "evt_1";
  received_at = "2026-01-02T03:04:05Z";
  format = "json";
  source = "fw-1";
  payload = "{}";
}

abbrev pub sample_message : RawMessage
sample_message = record { id = "7-0"; event = sample_event }

abbrev pub sample_parsed : ParsedEvent
sample_parsed = record {
  timestamp = "";
  source = record { type = "firewall"; vendor = "generic"; product = "p"; identifier = "fw-1" };
  event = record { category = "network"; action = "deny"; severity = "high" };
  network = none;
  user = none;
}

abbrev pub sample_detection : DetectionResult
sample_detection = record {
  format = "json";
  source_type = "firewall";
  confidence = 95;
  reason = "Valid JSON structure detected";
}

abbrev pub readings : Readings
readings n = record { stamp = "2026-01-02T03:04:06Z"; year = 2026 }

abbrev pub environment : Environment
environment = record { clock = λ n. readings; uuid = λ n. "0" }

abbrev pub detector : Detector
detector = record { detect = λ payload hint. sample_detection }

abbrev pub drift_detector : DriftDetector
drift_detector = record { analyze = analyze ascii }

-- engines that find the sample event, and nothing
abbrev pub good_engine : Engine
good_engine now e d = ok (some sample_parsed)

abbrev pub bad_engine : Engine
bad_engine now e d = err (message "no parser registered for format: unknown")

abbrev pub validator : Validator
validator = record {
  validate = λ e. record { valid = true; errors = [] };
  validate_bytes = λ s. record { valid = true; errors = [] };
}

abbrev pub config : Config
config = record {
  stream_name = "";
  group_name = "";
  consumer_name = "";
  claim_idle_ms = pos 60000;
  lock_ttl_seconds = pos 120;
  done_ttl_seconds = pos 0;
  batch_size = pos 0;
  concurrency = pos 0;
}

abbrev pub make_worker : Engine → Worker Stream Memory Raws.Memory
make_worker engine =
    new_worker stream_buffer (some memory_store) (some memory_raw_store) detector drift_detector
      engine normalize validator config

abbrev pub no_raws : Raws.Memory
no_raws = (new_memory_raw_store, record { cells = λ p. sample_event; next = 0 })

abbrev pub start : World Stream Memory Raws.Memory
start = record {
  buffer = no_stream;
  idem = new_memory;
  raws = no_raws;
  ctx = background;
  calls = 0;
}
