-- ===== src/Ingestion/Handler.antt =====
-- internal/ingestion/handler.go: the responses to POST /ingest and POST /ingest/batch. The body
-- comes decoded, or with the decoder's error. Headers and the writing of JSON are left out.
use log_morph.Common.{
  ℕ, String, List, [], ◌∷◌, Option, none, some, Result, ok, err, Error, error_text, length, ◌==◌,
  if◌then◌else◌,
}
use log_morph.Common.Text.{◌+++◌, decimal}
use log_morph.Ingestion.{
  IngestRequest, BatchIngestResponse, IngestionService, Environment, State, ingest, ingest_batch,
  first_empty,
}

pub record IngestResponse : Type 0 where
  pub event_id : String
  pub status : String

pub record ErrorResponse : Type 0 where
  pub status : String
  pub message : String

-- A status code and a body. `ErrorResponse.EventID` is never set.
pub data Response : Type 0 where
  accepted : ℕ → IngestResponse → Response
  batch_accepted : ℕ → BatchIngestResponse → Response
  failed : ℕ → ErrorResponse → Response

abbrev pub status_accepted : ℕ
status_accepted = 202

abbrev pub status_bad_request : ℕ
status_bad_request = 400

abbrev pub status_internal_server_error : ℕ
status_internal_server_error = 500

-- `writeJSONError`
abbrev pub bad_request : String → Response
bad_request message =
    failed status_bad_request (record { status = "bad_request"; message = message })

abbrev ingestion_error : Error → Response
ingestion_error e =
    failed status_internal_server_error
      (record { status = "ingestion_error"; message = error_text e })

module _ {B : Type 0} (env : Environment) (svc : IngestionService B) where
  abbrev pub answer : Result String → Response
  answer (ok id) = accepted status_accepted (record { event_id = id; status = "accepted" })
  answer (err e) = ingestion_error e

  -- `HandleIngest`
  unfoldable pub handle_ingest : Result IngestRequest → State B → Response × State B
  handle_ingest (err e) s = (bad_request ("invalid JSON payload: " +++ error_text e), s)
  handle_ingest (ok req) s =
      if req.payload == ""
      then (bad_request "payload must not be empty", s)
      else (let (r, s') = ingest env svc req s in (answer r, s'))

  abbrev pub batch_answer : Result (List String) → Response
  batch_answer (ok ids) =
      batch_accepted status_accepted
        (record { status = "accepted"; count = length ids; event_ids = ids })
  batch_answer (err e) = ingestion_error e

  checked_batch : Option ℕ → List IngestRequest → State B → Response × State B
  checked_batch (some i) reqs s =
      (bad_request ("item at index " +++ decimal i +++ " has empty payload"), s)
  checked_batch none reqs s = let (r, s') = ingest_batch env svc reqs s in (batch_answer r, s')

  -- `HandleIngestBatch`
  unfoldable pub handle_ingest_batch : Result (List IngestRequest) → State B → Response × State B
  unfolding checked_batch
  handle_ingest_batch (err e) s = (bad_request ("invalid JSON batch payload: " +++ error_text e), s)
  handle_ingest_batch (ok []) s = (bad_request "batch must not be empty", s)
  handle_ingest_batch (ok (req ∷ reqs)) s =
      checked_batch (first_empty 0 (req ∷ reqs)) (req ∷ reqs) s
