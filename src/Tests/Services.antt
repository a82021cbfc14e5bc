-- ===== src/Tests/Services.antt =====
-- Ingestion, detection of drift, parsing, normalization, validation and the worker's settings.
use text.Mathlib.TextLemmas.{nil≢cons, cons≢nil, tail-eq_of_cons-eq}
use log_morph.Common.{
  Error, ℕ, zero, suc, ap, String, ◌≡◌, ◌≤◌, ◌↔◌, ◌⊎◌, refl, true, none, some, Option, [], ◌∷◌,
  Result, ok, err, message, arith, ◌==◌, All, if◌then◌else◌,
}
use log_morph.Common.Text.{ascii}
use log_morph.Context.{background}
use log_morph.Common.{false}
use log_morph.Common.Integer.{pos}
use log_morph.Models.{UniversalEvent, stable, unknown}
use log_morph.Idempotency.{Memory, memory_store}
use log_morph.Storage as Raws
use log_morph.Storage.{memory_raw_store}
use log_morph.Detection.Drift.{analyze, analyze_exact, IsKnownFormat, drift_format}
use log_morph.Parsing.{Parser}
use log_morph.Normalization.{normalize}
use log_morph.Normalization.Fields.{IsNormalized, normalize_exact}
use log_morph.Validation.{SchemaError, violated, validate_bytes}
use log_morph.Validation.Schema.{accepts, universal_event_schema}
use log_morph.Validation.Document.{event_document}
use log_morph.Validation.Conformity.{normalized_conforms}
use log_morph.Validation.Report.{IsConsistent, validate_bytes_exact}
use log_morph.Ingestion.{IngestRequest, IngestionService, State, Environment, ingest_batch}
use log_morph.Ingestion.Batches.{
  events, ids_or_error, publish_all, HasPayload, ingest_batch_exact, batch_events_faithful,
  IsSentInOrder,
}
use log_morph.Worker.{new_worker}
use log_morph.Worker.Settings.{IsUsable, new_worker-IsUsable}
use log_morph.Tests.Fixtures.{
  Stream, stream_buffer, no_stream, sample_event, sample_parsed, sample_detection, readings,
  detector, drift_detector, good_engine, validator, config,
}

-- a uuid for each number: as many `x` as it says
abbrev xs : ℕ → String
xs zero = ""
xs (suc n) = String.◌∷◌ "x" (xs n)

xs_unique : (i j : ℕ) → xs i ≡ xs j → i ≡ j
xs_unique zero zero h = refl
xs_unique zero (suc j) h = absurd (nil≢cons h)
xs_unique (suc i) zero h = absurd (cons≢nil h)
xs_unique (suc i) (suc j) h = ap suc (xs_unique i j (tail-eq_of_cons-eq h))

abbrev env : Environment
env = record { uuid = xs; now = readings }

abbrev req : IngestRequest
req = record { format = "json"; source = "fw-1"; payload = "{}" }

abbrev empty_req : IngestRequest
empty_req = record req { payload = "" }

abbrev svc : IngestionService Stream
svc = record { raw_buffer = some stream_buffer; stream = "raw_events" }

abbrev empty_state : State Stream
empty_state = record { buffer = no_stream; made = 0 }

req_has : HasPayload req
req_has h = cons≢nil h

empty_has_not : ¬ (All HasPayload (req ∷ empty_req ∷ []))
empty_has_not h = (h.1).0 refl

ingest_batch_exact_example :
    ((ingest_batch env svc (req ∷ req ∷ []) empty_state).0
      ≡ ids_or_error
          (publish_all svc (events env 0 (req ∷ req ∷ [])) no_stream).0
          (events env 0 (req ∷ req ∷ [])))
    × ((ingest_batch env svc (req ∷ req ∷ []) empty_state).1.buffer
        ≡ (publish_all svc (events env 0 (req ∷ req ∷ [])) no_stream).1)
ingest_batch_exact_example =
    ingest_batch_exact env svc req (req ∷ []) empty_state (req_has, (req_has, tt))

batch_events_faithful_example : IsSentInOrder env xs_unique svc (req ∷ req ∷ []) empty_state
batch_events_faithful_example =
    batch_events_faithful env xs_unique svc req (req ∷ []) empty_state (req_has, (req_has, tt))

analyze_exact_example :
    ((analyze ascii sample_event sample_detection background).0.status ≡ stable
      ↔ (IsKnownFormat ascii (drift_format ascii sample_detection) × (50 ≤ 95)))
    × (((analyze ascii sample_event sample_detection background).0.status ≡ stable)
          × ((analyze ascii sample_event sample_detection background).0.suggested_action
              ≡ "route_to_parser")
        ⊎ ((analyze ascii sample_event sample_detection background).0.status ≡ unknown)
          × ((analyze ascii sample_event sample_detection background).0.suggested_action
              ≡ "escalate_to_ai"))
analyze_exact_example = analyze_exact ascii sample_event sample_detection background refl

abbrev json_parser : Parser
json_parser = record { format = " JSON"; parse = λ now raw. ok (some sample_parsed) }

normalize_exact_example :
    ((e : Error) × (normalize readings "0" sample_event none sample_detection ≡ err e))
    × ((e : UniversalEvent) × (normalize readings "0" sample_event
            (some sample_parsed)
            sample_detection
          ≡ ok e)
        × IsNormalized readings "0" sample_event sample_parsed sample_detection e)
normalize_exact_example = normalize_exact readings "0" sample_event sample_parsed sample_detection

-- documents are texts here, and the schema refuses the text "bad"
abbrev decode : String → Result String
decode s = if s == "" then err (message "unexpected end of JSON input") else ok s

abbrev schema : String → Option SchemaError
schema v =
    if v == "bad"
    then some
        (violated (record { instance_location = "/event_id"; message = "length must be >= 1" }) [])
    else none

validate_bytes_exact_example :
    (((validate_bytes decode schema "bad").valid ≡ true)
      ↔ ((v : String) × (decode "bad" ≡ ok v) × (schema v ≡ none)))
    × IsConsistent (validate_bytes decode schema "bad")
validate_bytes_exact_example = validate_bytes_exact decode schema "bad"

new_worker-IsUsable_example : IsUsable {B = Stream} {I = Memory} {R = Raws.Memory} (
    new_worker stream_buffer
      (some memory_store)
      (some memory_raw_store)
      detector
      drift_detector
      good_engine
      normalize
      validator
      config)
new_worker-IsUsable_example =
    new_worker-IsUsable stream_buffer (some memory_store) (some memory_raw_store) detector
      drift_detector good_engine normalize validator config (omega arith) (omega arith)

abbrev sample_universal : UniversalEvent
sample_universal = record {
  event_id = "evt_1";
  schema_version = "1.0";
  timestamp = "2026-01-02T03:04:05Z";
  source = sample_parsed.source;
  event = sample_parsed.event;
  network = some (record {
    src_ip = "10.0.0.1";
    src_port = some (pos 70000);
    dst_ip = "";
    dst_port = none;
    protocol = "tcp";
  });
  user = none;
  raw = record { format = "json"; message = "{}" };
  metadata = record { parser_version = "1.0"; ingested_at = "2026-01-02T03:04:06Z" };
}

normalized_conforms_example :
    accepts universal_event_schema (event_document sample_universal) ≡ false
unfolding normalize
normalized_conforms_example =
    normalized_conforms readings "0" sample_event
      (record sample_parsed { network = sample_universal.network }) sample_detection
      sample_universal refl
