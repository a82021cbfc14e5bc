-- ===== src/Buffer.antt =====
-- internal/buffer/redis.go: the interface of the raw event buffer
pub mod Redis
use log_morph.Common.{String, Option, List, Error, Result}
use log_morph.Common.Integer.{ℤ}
use log_morph.Models.{RawEvent}

abbrev pub default_raw_stream_name : String
default_raw_stream_name = "raw_events"

abbrev pub default_group_name : String
default_group_name = "ulpf-worker-group"

pub record RawMessage : Type 0 where
  pub id : String
  pub event : RawEvent

-- `RawBuffer`, over the state B of the server behind it
pub record RawBuffer (B : Type 0) : Type 0 where
  pub publish_raw : (stream : String) → RawEvent → B → Result String × B
  pub ensure_group : (stream group : String) → B → Option Error × B
  pub read_group :
      (stream group consumer : String) (count block : ℤ) → B → Result (List RawMessage) × B
  pub ack : (stream group : String) (ids : List String) → B → Option Error × B
  pub claim_pending :
      (stream group consumer : String) (min_idle count : ℤ) → B → Result (List RawMessage) × B
  pub ping : B → Option Error × B
  pub close : B → Option Error × B
