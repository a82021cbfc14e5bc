-- ===== src/Models.antt =====
-- internal/models/event.go. Pointers that may be nil are `Option`; ports are Go's `int`. A
-- confidence, a `float64` that the code only writes as a literal, compares with 0.5 and passes on,
-- is a number of hundredths.
pub mod Encoding
use log_morph.Common.{ℕ, String, Option, Result, ok, ◌≡◌}
use log_morph.Common.Integer.{ℤ}

pub record RawEvent : Type 0 where
  pub event_id : String
  pub received_at : String
  pub format : String
  pub source : String
  pub payload : String

pub record DetectionResult : Type 0 where
  pub format : String
  pub source_type : String
  pub confidence : ℕ
  pub reason : String

pub data DriftStatus : Type 0 where
  stable minor_drift major_drift unknown : DriftStatus
  -- the zero value, `""`
  unset : DriftStatus

pub record DriftResult : Type 0 where
  pub status : DriftStatus
  pub confidence : ℕ
  pub message : String
  pub suggested_action : String

pub record SourceInfo : Type 0 where
  pub type : String
  pub vendor : String
  pub product : String
  pub identifier : String

pub record EventInfo : Type 0 where
  pub category : String
  pub action : String
  pub severity : String

pub record NetworkInfo : Type 0 where
  pub src_ip : String
  pub src_port : Option ℤ
  pub dst_ip : String
  pub dst_port : Option ℤ
  pub protocol : String

pub record UserInfo : Type 0 where
  pub username : Option String

pub record RawInfo : Type 0 where
  pub format : String
  pub message : String

pub record MetadataInfo : Type 0 where
  pub parser_version : String
  pub ingested_at : String

pub record ParsedEvent : Type 0 where
  pub timestamp : String
  pub source : SourceInfo
  pub event : EventInfo
  pub network : Option NetworkInfo
  pub user : Option UserInfo

pub record UniversalEvent : Type 0 where
  pub event_id : String
  pub schema_version : String
  pub timestamp : String
  pub source : SourceInfo
  pub event : EventInfo
  pub network : Option NetworkInfo
  pub user : Option UserInfo
  pub raw : RawInfo
  pub metadata : MetadataInfo

-- What `time.Now()` returns at one call, in the two forms that the code reads: formatted by
-- `UTC().Format(time.RFC3339)`, and its `UTC().Year()`.
pub record Instant : Type 0 where
  pub stamp : String
  pub year : ℕ

-- The readings of the clock during one call of a component, in order.
abbrev pub Readings : Type 0
Readings = ℕ → Instant

-- `json.Marshal` and `json.Unmarshal` of a raw event
pub record EventJson : Type 0 where
  pub marshal : RawEvent → Result String
  pub unmarshal : String → Result RawEvent

-- What is marshalled is unmarshalled to the same event.
abbrev pub RoundTrips : EventJson → Type 0
RoundTrips json = (e : RawEvent) (p : String) → json.marshal e ≡ ok p → json.unmarshal p ≡ ok e
