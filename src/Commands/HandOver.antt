-- ===== src/Commands/HandOver.antt =====
-- What the ingestion program accepts, the worker program reads, when both have the same variables.
use log_morph.Common.{ℕ, ◌≤◌, String, ◌≡◌, ◌∙◌, ap, Option, List, [], ◌∷◌, Result, ok, length}
use log_morph.Common.Integer.{ℤ, pos}
use log_morph.Common.Integer.ParseInt.{parse_int}
use log_morph.Models.Encoding.{event_json, event_json-RoundTrips}
use log_morph.Buffer.{RawMessage}
use log_morph.Buffer.Redis.{RedisRawBuffer, XMessage, raw_messages}
use log_morph.Buffer.Redis.Messages.{IsStreams, message_events, entries}
use log_morph.Storage.Minio.{MinioRawStore}
use log_morph.Validation.{SchemaError}
use log_morph.Ingestion.{IngestRequest, IngestionService, Environment, State, new_service}
use log_morph.Ingestion.Batches.{events}
use log_morph.Ingestion.Handler.{Response}
use log_morph.Ingestion.Bodies.{decode_batch}
use log_morph.Ingestion.Routes.{Answer, serve, handled, healthy, unrouted}
use log_morph.Ingestion.Responses.{status_code, accepted_batch}
use log_morph.Storage as Raws
use log_morph.Ingestion.Transport.{accepted_batch_is_delivered}
use log_morph.Worker.{new_worker}
use log_morph.Worker as Workers
use log_morph.Commands.{Variables, RedisClient}
use log_morph.Commands.Ingestion.{ingestion_service, ingestion_buffer}
use log_morph.Commands.Worker.{Outside, main_worker, worker_config}

code_of : Answer → ℕ
code_of (handled r) = status_code r
code_of (healthy _) = 0
code_of unrouted = 0

module _ {B I M : Type 0} (getenv : Variables) (out : Outside B I M)
    (minio_store : Result (MinioRawStore M)) (schema : out.Json → Option SchemaError) where
  abbrev pub buffer_of : RedisRawBuffer B × RedisClient B I
  buffer_of = ingestion_buffer getenv out.new_client

  abbrev pub worker_of : Workers.Worker B I (M × Raws.Memory)
  worker_of = main_worker getenv out buffer_of.0 buffer_of.1 minio_store schema

  abbrev pub service : IngestionService B
  service = ingestion_service getenv out.new_client

  module _ (env : Environment) where
    -- POST /ingest/batch to the ingestion program
    abbrev pub post_batch : String → State B → Answer × State B
    post_batch body s =
        serve env service (record { method = "POST"; path = "/ingest/batch"; body = body }) s

    module _ (laws : IsStreams buffer_of.0.client)
        (unbounded : parse_int (getenv "RAW_EVENT_STREAM_MAXLEN") ≡ pos 0) where
      -- the entries that the worker's group has not been given
      abbrev pub undelivered : B → List XMessage
      undelivered =
          entries event_json buffer_of.0 laws event_json-RoundTrips unbounded worker_of.stream_name
            worker_of.group_name

      -- Both programs run with the same variables, the stream is not trimmed, and the worker's group
      -- has nothing left to read. A batch that POST /ingest/batch
      -- answers with 202 is then what the worker's next read returns, if it has room for it: every
      -- event whole and in order, and nothing else.
      pub accepted_post_reaches_worker :
          (body : String) (req : IngestRequest) (reqs : List IngestRequest) (s : State B)
          (answer : Response) (count : ℕ) (block : ℤ)
          → decode_batch body ≡ ok (req ∷ reqs)
          → undelivered s.buffer ≡ []
          → (post_batch body s).0 ≡ handled answer
          → status_code answer ≡ 202
          → length (undelivered (post_batch body s).1.buffer) ≤ count
          → (messages : List RawMessage) × ((worker_of.buffer.read_group worker_of.stream_name
                worker_of.group_name worker_of.consumer_name
                (pos count)
                block
                (post_batch body s).1.buffer).0
              ≡ ok messages)
            × (message_events messages ≡ events env s.made (req ∷ reqs))
      unfolding code_of main_worker new_worker worker_config ingestion_service new_service serve
          raw_messages
      accepted_post_reaches_worker body req reqs s answer count block decoded idle answered good
            room =
          let code = ap code_of (rw decoded at answered) ∙ good in
          let (ids, taken, same) = accepted_batch env service req reqs s code in
          rw (decoded, same)
            (accepted_batch_is_delivered event_json buffer_of.0 laws event_json-RoundTrips unbounded
              service.stream worker_of.group_name env req reqs s ids worker_of.consumer_name count
              block (ap (λ ms. message_events (raw_messages event_json ms)) idle) taken
              (rw (decoded, same) at room))
