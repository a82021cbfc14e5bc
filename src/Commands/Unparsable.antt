-- ===== src/Commands/Unparsable.antt =====
-- Messages that cannot be parsed, in the worker that cmd/worker/main.go makes.
use log_morph.Common.{◌≡◌, refl, ap, false, Option, Result, err, Error, message, wrap}
use log_morph.Buffer.{RawMessage}
use log_morph.Buffer.Redis.{RedisRawBuffer}
use log_morph.Idempotency.{redis_store}
use log_morph.Idempotency.Redis.{IsRedis, redis_views, redis_store-IsLawful}
use log_morph.Storage.Minio.{MinioRawStore}
use log_morph.Storage as Raws
use log_morph.Detection.{format_unknown, format_json, format_syslog, format_csv}
use log_morph.Detection.Detect.{detect, detect_content, looks_like_json}
use log_morph.Common.Json.Parser.{valid, parse}
use log_morph.Parsing.{engine_parse}
use log_morph.Validation.{SchemaError}
use log_morph.Worker as Workers
use log_morph.Worker.{World, Environment, new_worker}
use log_morph.Worker.Pipeline.{process_single_event}
use log_morph.Worker.Message.{process_message}
use log_morph.Worker.Message.Delivery.{IsRetriable, failed-IsRetriable}
use log_morph.Commands.{Variables, RedisClient}
use log_morph.Commands.Worker.{Outside, main_worker, standard_registry}
use log_morph.Commands.Registry.{unknown_has_none, json_registered}
use log_morph.Models.{Readings}
use log_morph.Common.{String, ◌≢◌, ◌&&◌, true, eq_iff, some, arith, in_context}
use log_morph.Common.Json.Decode.{json_error}
use log_morph.Common.Json.{Items, array}
use log_morph.Common.Text.{trim_space, to_lower, has_prefix, has_suffix}
use log_morph.Parsing.Json.Unmarshal.{unmarshal_log}
use log_morph.Parsing.Json.Documents.{array_fails, not_blank}

module _ {B I M : Type 0} (getenv : Variables) (out : Outside B I M) (env : Environment)
    (raw_buffer : RedisRawBuffer B) (rdb : RedisClient B I) (minio_store : Result (MinioRawStore M))
    (schema : out.Json → Option SchemaError) where
  abbrev pub main_worker_of : Workers.Worker B I (M × Raws.Memory)
  main_worker_of = main_worker getenv out raw_buffer rdb minio_store schema

  run_fails :
      (msg : RawMessage) (e : Error)
      → ((now : Readings)
          → engine_parse out.unicode
              (standard_registry out.unicode (unmarshal_log out.to_int))
              now
              msg.event
              (detect out.unicode valid msg.event.payload msg.event.format)
            ≡ err e)
      → (s : World B I (M × Raws.Memory))
      → (process_single_event env main_worker_of msg.event s).0 ≡ err (wrap "parsing failed" e)
  unfolding main_worker new_worker process_single_event
  run_fails msg e fails s = rw fails refl

  module _ (redis : IsRedis rdb.keys) (msg : RawMessage) (s : World B I (M × Raws.Memory))
      (fresh : (redis_views rdb.keys redis).done s.idem msg.event.event_id ≡ false)
      (free : (redis_views rdb.keys redis).locked s.idem msg.event.event_id ≡ false) where
    failing-IsRetriable :
        (e : Error)
        → ((now : Readings)
            → engine_parse out.unicode
                (standard_registry out.unicode (unmarshal_log out.to_int))
                now
                msg.event
                (detect out.unicode valid msg.event.payload msg.event.format)
              ≡ err e)
        → IsRetriable
            (redis_store-IsLawful rdb.keys redis).0
            msg.event.event_id
            s
            (process_message env main_worker_of msg s).1
    unfolding main_worker new_worker
    failing-IsRetriable e fails =
        failed-IsRetriable env main_worker_of (redis_store rdb.keys)
          (redis_store-IsLawful rdb.keys redis).0 msg s fresh free (run_fails msg e fails _)

    -- Over a Redis that keeps its contract, a message whose format is unknown to the detector, and
    -- whose event is neither done nor locked, is not acknowledged and not marked done, and its lock
    -- is free again: every later delivery of it fails in the same way.
    pub unknown-IsRetriable :
        (detect out.unicode valid msg.event.payload msg.event.format).format ≡ format_unknown
        → IsRetriable
            (redis_store-IsLawful rdb.keys redis).0
            msg.event.event_id
            s
            (process_message env main_worker_of msg s).1
    unfolding engine_parse
    unknown-IsRetriable unknown =
        failing-IsRetriable
          (wrap "parser selection failed" (message "no parser registered for format: unknown"))
          (λ now. rw (unknown, unknown_has_none) refl)

    -- what the detector finds in a document in brackets
    abbrev trimmed : String
    trimmed = trim_space msg.event.payload

    abbrev hint : String
    hint = to_lower out.unicode (trim_space msg.event.format)

    array_detected :
        (vs : Items)
        → parse trimmed ≡ some (array vs)
        → (has_prefix trimmed "[" && has_suffix trimmed "]") ≡ true
        → hint ≢ format_syslog
        → hint ≢ format_csv
        → (detect out.unicode valid msg.event.payload msg.event.format).format ≡ format_json
    unfolding detect detect_content looks_like_json valid
    array_detected vs document brackets not_syslog not_csv = ground (
      arith,
      document,
      not_blank trimmed (array vs) document,
      eq_iff hint format_syslog,
      eq_iff hint format_csv,
    )

    -- Over a Redis that keeps its contract, a message whose payload, without the blanks around it, is
    -- a JSON array that begins with [ and ends with ], whose hint is neither syslog nor csv, and whose
    -- event is neither done nor locked, is detected as JSON; it is not acknowledged and not marked
    -- done, and its lock is free again.
    pub array-IsRetriable :
        (vs : Items)
        → parse (trim_space msg.event.payload) ≡ some (array vs)
        → (has_prefix (trim_space msg.event.payload) "["
            && has_suffix (trim_space msg.event.payload) "]")
          ≡ true
        → to_lower out.unicode (trim_space msg.event.format) ≢ format_syslog
        → to_lower out.unicode (trim_space msg.event.format) ≢ format_csv
        → ((detect out.unicode valid msg.event.payload msg.event.format).format ≡ format_json)
          × IsRetriable
              (redis_store-IsLawful rdb.keys redis).0
              msg.event.event_id
              s
              (process_message env main_worker_of msg s).1
    unfolding engine_parse
    array-IsRetriable vs document brackets not_syslog not_csv =
        let json = array_detected vs document brackets not_syslog not_csv in
        (
          json,
          failing-IsRetriable
              (wrap "parsing failed for format json" (wrap "failed to unmarshal JSON" json_error))
              (λ now.
                rw (json, json_registered out.unicode (unmarshal_log out.to_int))
                  (ap (in_context "parsing failed for format json")
                    (array_fails out.unicode out.to_int now msg.event vs document))),
        )
