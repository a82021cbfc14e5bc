-- ===== src/Tests/Programs.antt =====
-- Both programs, over the servers of the other tests and with few variables set.
use log_morph.Common.{
  String, Option, ℕ, ◌≡◌, inl, ◌↔◌, ◌≢◌, refl, none, some, List, [], ◌∷◌, Result, ok, err, message,
  arith, ◌==◌, if◌then◌else◌,
}
use log_morph.Common.Integer.{pos}
use log_morph.Common.Integer.ParseInt.{parse_int}
use log_morph.Common.Integer.Atoi.{atoi}
use log_morph.Common.Json.{number, item, no_items}
use log_morph.Common.Json.Lexer.{lex}
use log_morph.Common.Json.Parser.{valid}
use log_morph.Parsing.Json.Unmarshal.{unmarshal_log}
use log_morph.Models.Encoding.{marshal_event, unmarshal_event}
use log_morph.Common.Csv.{read_all}
use log_morph.Common.Text.{ascii, decimal, to_lower, trim_space}
use log_morph.Common.GoMap.{get}
use log_morph.Context.{after, IsNoLater-refl}
use log_morph.Buffer.{RawMessage}
use log_morph.Buffer.Redis.Messages.{message_events}
use log_morph.Detection.{format_unknown, format_json}
use log_morph.Detection.Detect.{detect}
use log_morph.Detection.Patterns.{has_timestamp, has_key}
use log_morph.Idempotency.Redis.{redis_store-IsLawful}
use log_morph.Ingestion.{new_service, ingest_batch, publish_each, publish, first_empty}
use log_morph.Validation.{new_validator}
use log_morph.Storage.Minio.{MinioRawStore}
use log_morph.Commands.Ingestion.{ingestion_service}
use log_morph.Buffer.Redis.{
  redis_ensure_group, redis_publish_raw, redis_read_group, parse_x_message, raw_messages,
}
use log_morph.Ingestion.Batches.{events}
use log_morph.Ingestion.Handler.{batch_accepted, handle_ingest_batch}
use log_morph.Ingestion.Routes.{serve}
use log_morph.Ingestion.Bodies.{decode_batch}
use log_morph.Storage as Raws
use log_morph.Worker.{World, new_worker}
use log_morph.Worker.Message.{process_message}
use log_morph.Worker.Message.Delivery.{IsRetriable, IsDelivered, acked}
use log_morph.Worker.Action.{Action, pure}
use log_morph.Commands.{Variables}
use log_morph.Commands.Worker.{Outside, stopped, worker_config, main_worker, worker_main}
use log_morph.Commands.Worker.Running.{worker_main_returns}
use log_morph.Commands.Recovery.{main_claim_idle_exact}
use log_morph.Commands.Registry.{HasParser, HasParser-iff_detected}
use log_morph.Commands.Parsable.{readable-IsDelivered}
use log_morph.Tests.Documents.{csv_raw}
use log_morph.Commands.Unparsable.{unknown-IsRetriable, array-IsRetriable}
use log_morph.Commands.HandOver.{worker_of, buffer_of, post_batch, accepted_post_reaches_worker}
use log_morph.Tests.Fixtures.{Keys, server, server-IsRedis, environment, no_raws, sample_event}
use log_morph.Tests.Streams.{Server, client, laws, env, req, idle}
use log_morph.Tests.Streams as Streams

abbrev getenv : Variables
getenv name = if name == "RAW_EVENT_CLAIM_IDLE_MS" then "0" else ""

abbrev out : Outside Server Keys (Unit {0})
out = record {
  new_client = λ addr password db. record { streams = client; keys = server };
  minio_new = λ cfg. err (message "no such host");
  unicode = ascii;
  to_int = atoi;
  Json = Unit {0};
  unmarshal_json = λ s. ok tt;
  marshal_event = λ e. ok "{}";
  read_file = λ path. err (message "no such file");
  embedded_schema = "{}";
  Compiler = Unit {0};
  add_resource = λ url content. ok tt;
  compile = λ c url. ok (λ j. none);
}

abbrev world : ℕ → World Server Keys (Unit {0} × Raws.Memory)
world n = record {
  buffer = Streams.idle.buffer;
  idem = [];
  raws = (tt, no_raws);
  ctx = after n;
  calls = 0;
}

abbrev nobody : List RawMessage → Action Server Keys (Unit {0} × Raws.Memory) (Option (Unit {0}))
nobody msgs = pure (some tt)

computes : Unit {0}
unfolding marshal_event unmarshal_event valid lex atoi parse_int new_validator redis_ensure_group
    worker_config new_service new_worker redis_publish_raw redis_read_group parse_x_message get
    decimal raw_messages ingest_batch publish_each publish first_empty main_worker ingestion_service
    serve handle_ingest_batch detect has_timestamp has_key to_lower trim_space
computes = tt

worker_main_returns_example :
    (worker_main getenv out environment (λ n. n) nobody 1 4 (world 3)).0 ≡ some (stopped none)
unfolding computes
worker_main_returns_example =
    worker_main_returns getenv out environment (λ n. n) nobody (λ many msgs s. (tt, refl))
      (λ many msgs s. IsNoLater-refl s.ctx) 0 1 3 (world 3) (omega arith) refl (omega arith)

abbrev no_store : Result (MinioRawStore (Unit {0}))
no_store = err (message "no such host")

main_claim_idle_exact_example :
    (worker_of getenv out no_store (λ j. none)).claim_idle_time ≡ pos 60_000_000_000
unfolding computes
main_claim_idle_exact_example =
    main_claim_idle_exact getenv out (buffer_of getenv out no_store (λ j. none)).0
      (buffer_of getenv out no_store (λ j. none)).1 no_store (λ j. none) (omega arith)

HasParser-iff_detected_example :
    HasParser ascii (unmarshal_log atoi) (detect ascii valid "a b" "JSON ").format
    ↔ ((detect ascii valid "a b" "JSON ").format ≢ format_unknown)
HasParser-iff_detected_example =
    HasParser-iff_detected ascii (unmarshal_log atoi) valid "a b" "JSON "

abbrev odd_message : RawMessage
odd_message = record { id = "7-0"; event = record sample_event { format = ""; payload = "hello" } }

unknown-IsRetriable_example :
    IsRetriable
      (redis_store-IsLawful server server-IsRedis).0
      "evt_1"
      (world 3)
      (process_message environment
        (worker_of getenv out no_store (λ j. none))
        odd_message
        (world 3)).1
unfolding computes
unknown-IsRetriable_example =
    unknown-IsRetriable getenv out environment (buffer_of getenv out no_store (λ j. none)).0
      (buffer_of getenv out no_store (λ j. none)).1 no_store (λ j. none) server-IsRedis odd_message
      (world 3) refl refl refl

abbrev array_message : RawMessage
array_message = record {
  id = "8-0";
  event = record sample_event { format = ""; payload = "[1, 2]" };
}

array-IsRetriable_example :
    ((detect ascii valid "[1, 2]" "").format ≡ format_json)
    × IsRetriable
        (redis_store-IsLawful server server-IsRedis).0
        "evt_1"
        (world 3)
        (process_message environment
          (worker_of getenv out no_store (λ j. none))
          array_message
          (world 3)).1
unfolding computes
array-IsRetriable_example =
    array-IsRetriable getenv out environment (buffer_of getenv out no_store (λ j. none)).0
      (buffer_of getenv out no_store (λ j. none)).1 no_store (λ j. none) server-IsRedis
      array_message (world 3) refl refl (item (number "1") (item (number "2") no_items)) refl refl
      (λ same. cc) (λ same. cc)

abbrev csv_message : RawMessage
csv_message = record { id = "9-0"; event = csv_raw }

csv_detected : (detect ascii valid csv_raw.payload csv_raw.format).confidence ≡ 90
unfolding computes read_all
csv_detected = refl

readable-IsDelivered_example :
    IsDelivered
      (redis_store-IsLawful server server-IsRedis).0
      csv_raw.event_id
      (acked (worker_of getenv out no_store (λ j. none)) csv_message (world 3).buffer)
      (world 3)
      (process_message environment
        (worker_of getenv out no_store (λ j. none))
        csv_message
        (world 3)).1
unfolding get
readable-IsDelivered_example =
    readable-IsDelivered getenv out environment (buffer_of getenv out no_store (λ j. none)).0
      (buffer_of getenv out no_store (λ j. none)).1 no_store (λ j. none) server-IsRedis csv_message
      (world 3) refl refl (inl csv_detected)

abbrev body : String
body =
    "[{\"format\":\"json\",\"source\":\"fw-1\",\"payload\":\"{}\"}, {\"Payload\":\"{}\",\"source\":\"fw-1\",\"format\":\"json\"}] ..."

abbrev posted : Server
posted = (post_batch getenv out no_store (λ j. none) env body idle).1.buffer

accepted_post_reaches_worker_example :
    (messages : List RawMessage) × (((worker_of getenv out no_store (λ j. none)).buffer.read_group
        "raw_events" "ulpf-worker-group" "worker-1"
        (pos 10)
        (pos 0)
        posted).0
      ≡ ok messages)
    × (message_events messages ≡ events env 0 (req ∷ req ∷ []))
unfolding computes decode_batch
accepted_post_reaches_worker_example =
    accepted_post_reaches_worker getenv out no_store (λ j. none) env laws refl body req (req ∷ [])
      idle
      (batch_accepted 202
        (record { status = "accepted"; count = 2; event_ids = "evt_0" ∷ "evt_1" ∷ [] }))
      10 (pos 0) refl refl refl refl (omega arith)
