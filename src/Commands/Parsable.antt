-- ===== src/Commands/Parsable.antt =====
-- Messages that the worker that cmd/worker/main.go makes always gets done.
use log_morph.Common.{String, ◌≡◌, refl, ◌⊎◌, inl, inr, false, Option, some, Result, ok, arith}
use log_morph.Buffer.{RawMessage}
use log_morph.Buffer.Redis.{RedisRawBuffer}
use log_morph.Common.Json.Parser.{valid}
use log_morph.Detection.{format_csv, format_syslog}
use log_morph.Detection.Detect.{detect, detect_content}
use log_morph.Detection.Detect.Outcomes.{detected_csv_parses, detected_syslog_parses}
use log_morph.Idempotency.{redis_store}
use log_morph.Idempotency.Redis.{IsRedis, redis_views, redis_store-IsLawful}
use log_morph.Models.{ParsedEvent, Readings}
use log_morph.Normalization.{normalize}
use log_morph.Parsing.{engine_parse}
use log_morph.Parsing.Json.Unmarshal.{unmarshal_log}
use log_morph.Storage as Raws
use log_morph.Storage.Minio.{MinioRawStore}
use log_morph.Validation.{SchemaError}
use log_morph.Worker as Workers
use log_morph.Worker.{World, Environment, new_worker}
use log_morph.Worker.Pipeline.{PipelineResult, process_single_event}
use log_morph.Worker.Message.{process_message}
use log_morph.Worker.Message.Delivery.{IsDelivered, acked, succeeded-IsDelivered}
use log_morph.Commands.{Variables, RedisClient}
use log_morph.Commands.Worker.{Outside, main_worker, standard_registry}
use log_morph.Commands.Registry.{csv_registered, syslog_registered}

module _ {B I M : Type 0} (getenv : Variables) (out : Outside B I M) (env : Environment)
    (raw_buffer : RedisRawBuffer B) (rdb : RedisClient B I) (minio_store : Result (MinioRawStore M))
    (schema : out.Json → Option SchemaError) where
  abbrev pub worker : Workers.Worker B I (M × Raws.Memory)
  worker = main_worker getenv out raw_buffer rdb minio_store schema

  -- the engine returns an event at every time
  abbrev Parses : RawMessage → Type 0
  Parses msg =
      (now : Readings)
      → (p : ParsedEvent) × (engine_parse out.unicode
            (standard_registry out.unicode (unmarshal_log out.to_int)) now msg.event
            (detect out.unicode valid msg.event.payload msg.event.format)
          ≡ ok (some p))

  run_succeeds :
      (msg : RawMessage)
      → Parses msg
      → (s : World B I (M × Raws.Memory))
      → (r : PipelineResult) × ((process_single_event env worker msg.event s).0 ≡ ok r)
  unfolding main_worker new_worker process_single_event normalize
  run_succeeds msg parses s = let (p, parsed) = parses (env.clock s.calls) in rw parsed (_, refl)

  csv_format :
      (payload hint : String)
      → (detect out.unicode valid payload hint).confidence ≡ 90
      → (detect out.unicode valid payload hint).format ≡ format_csv
  unfolding detect detect_content
  csv_format payload hint h = ground arith

  syslog_format :
      (payload hint : String)
      → (detect out.unicode valid payload hint).confidence ≡ 85
      → (detect out.unicode valid payload hint).format ≡ format_syslog
  unfolding detect detect_content
  syslog_format payload hint h = ground arith

  csv-Parses :
      (msg : RawMessage)
      → (detect out.unicode valid msg.event.payload msg.event.format).confidence ≡ 90
      → Parses msg
  unfolding engine_parse
  csv-Parses msg confident now =
      let (p, parsed) = detected_csv_parses out.unicode valid now msg.event confident in
      (
        p,
        rw (csv_format _ _ confident, csv_registered out.unicode (unmarshal_log out.to_int), parsed)
            refl,
      )

  syslog-Parses :
      (msg : RawMessage)
      → (detect out.unicode valid msg.event.payload msg.event.format).confidence ≡ 85
      → Parses msg
  unfolding engine_parse
  syslog-Parses msg confident now =
      let (p, parsed, _) = detected_syslog_parses out.unicode valid now msg.event confident in
      (
        p,
        rw
            (
              syslog_format _ _ confident,
              syslog_registered out.unicode (unmarshal_log out.to_int),
              parsed,
            )
            refl,
      )

  module _ (redis : IsRedis rdb.keys) (msg : RawMessage) (s : World B I (M × Raws.Memory))
      (fresh : (redis_views rdb.keys redis).done s.idem msg.event.event_id ≡ false)
      (free : (redis_views rdb.keys redis).locked s.idem msg.event.event_id ≡ false) where
    parsed-IsDelivered :
        Parses msg
        → IsDelivered
            (redis_store-IsLawful rdb.keys redis).0
            msg.event.event_id
            (acked worker msg s.buffer)
            s
            (process_message env worker msg s).1
    unfolding main_worker new_worker
    parsed-IsDelivered parses =
        succeeded-IsDelivered env worker (redis_store rdb.keys)
          (redis_store-IsLawful rdb.keys redis).0 msg s fresh free (run_succeeds msg parses _).1

    -- Over a Redis that keeps its contract, a message that the detector takes for CSV or for syslog
    -- by its content, and whose event is neither done nor locked, is marked done and acknowledged at
    -- its first delivery, whatever else its payload holds and whether its event is valid or not.
    pub readable-IsDelivered :
        ((detect out.unicode valid msg.event.payload msg.event.format).confidence ≡ 90)
          ⊎ ((detect out.unicode valid msg.event.payload msg.event.format).confidence ≡ 85)
        → IsDelivered
            (redis_store-IsLawful rdb.keys redis).0
            msg.event.event_id
            (acked worker msg s.buffer)
            s
            (process_message env worker msg s).1
    readable-IsDelivered (inl csv) = parsed-IsDelivered (csv-Parses msg csv)
    readable-IsDelivered (inr syslog) = parsed-IsDelivered (syslog-Parses msg syslog)
