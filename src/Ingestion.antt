-- ===== src/Ingestion.antt =====
-- internal/ingestion/service.go
pub mod Batches
pub mod Handler
pub mod Responses
pub mod Bodies
pub mod Routes
pub mod Transport
use log_morph.Common.{
  ℕ, suc, String, Option, none, some, List, [], ◌∷◌, Error, Result, ok, err, message, wrap, ◌==◌,
  if◌then◌else◌,
}
use log_morph.Common.Text.{◌+++◌, decimal}
use log_morph.Models.{RawEvent, Instant}
use log_morph.Buffer.{RawBuffer, default_raw_stream_name}

pub record IngestRequest : Type 0 where
  pub format : String
  pub source : String
  pub payload : String

pub record BatchIngestResponse : Type 0 where
  pub status : String
  pub count : ℕ
  pub event_ids : List String

-- `IngestionService`; the buffer may be nil
pub record IngestionService (B : Type 0) : Type 0 where
  pub raw_buffer : Option (RawBuffer B)
  pub stream : String

-- `NewService`
unfoldable pub new_service : {B : Type 0} → Option (RawBuffer B) → String → IngestionService B
new_service raw_buffer stream = record {
  raw_buffer = raw_buffer;
  stream = if stream == "" then default_raw_stream_name else stream;
}

-- The uuids and the readings of the clock that the service meets, in order.
pub record Environment : Type 0 where
  pub uuid : ℕ → String
  pub now : ℕ → Instant

-- The buffer, and how many events have been made.
pub record State (B : Type 0) : Type 0 where
  pub buffer : B
  pub made : ℕ

module _ (env : Environment) where
  -- the n-th event
  abbrev pub make_event : ℕ → IngestRequest → RawEvent
  make_event n req = record {
    event_id = "evt_" +++ env.uuid n;
    received_at = (env.now n).stamp;
    format = req.format;
    source = req.source;
    payload = req.payload;
  }

abbrev buffering_error : Result String → Option Error
buffering_error (ok _) = none
buffering_error (err e) = some (wrap "failed to buffer raw event to Redis" e)

publish_to : {B : Type 0} → Option (RawBuffer B) → String → RawEvent → B → Option Error × B
publish_to none stream event b = (none, b)
publish_to (some buffer) stream event b =
    let (r, b') = buffer.publish_raw stream event b in (buffering_error r, b')

-- `if s.rawBuffer != nil { … PublishRaw … }`; the stream id that comes back is dropped
unfoldable pub publish : {B : Type 0} → IngestionService B → RawEvent → B → Option Error × B
unfolding publish_to
publish svc event b = publish_to svc.raw_buffer svc.stream event b

-- the first loop of `IngestBatch`: the index of the first item without a payload
unfoldable pub first_empty : ℕ → List IngestRequest → Option ℕ
first_empty i [] = none
first_empty i (req ∷ reqs) =
    let rest = first_empty (suc i) reqs in if req.payload == "" then some i else rest

abbrev empty_item : ℕ → Error
empty_item i = message ("item at index " +++ decimal i +++ " has empty payload")

module _ {B : Type 0} (env : Environment) (svc : IngestionService B) where
  abbrev id_or_error : RawEvent → Option Error → Result String
  id_or_error event none = ok event.event_id
  id_or_error event (some e) = err e

  -- `Ingest`
  unfoldable pub ingest : IngestRequest → State B → Result String × State B
  ingest req s =
      if req.payload == ""
      then (err (message "payload must not be empty"), s)
      else (let event = make_event env s.made req in
          let (failed, b) = publish svc event s.buffer in
          (id_or_error event failed, record { buffer = b; made = suc s.made }))

  abbrev then_ids : Result (List String) × State B → RawEvent → Result (List String) × State B
  then_ids (ok ids, s) event = (ok (event.event_id ∷ ids), s)
  then_ids (err e, s) event = (err e, s)

  abbrev after_publish :
      Option Error
      → RawEvent
      → State B
      → Result (List String) × State B
      → Result (List String) × State B
  after_publish (some e) event s rest = (err e, s)
  after_publish none event s rest = then_ids rest event

  -- the second loop
  unfoldable pub publish_each : List IngestRequest → State B → Result (List String) × State B
  publish_each [] s = (ok [], s)
  publish_each (req ∷ reqs) s =
      let event = make_event env s.made req in
      let (failed, b) = publish svc event s.buffer in
      let s' : State B = record { buffer = b; made = suc s.made } in
      let rest = publish_each reqs s' in after_publish failed event s' rest

  checked : Option ℕ → List IngestRequest → State B → Result (List String) × State B
  unfolding publish_each
  checked (some i) reqs s = (err (empty_item i), s)
  checked none reqs s = publish_each reqs s

  -- `IngestBatch`
  unfoldable pub ingest_batch : List IngestRequest → State B → Result (List String) × State B
  unfolding checked first_empty
  ingest_batch [] s = (err (message "batch must not be empty"), s)
  ingest_batch (req ∷ reqs) s = checked (first_empty 0 (req ∷ reqs)) (req ∷ reqs) s
