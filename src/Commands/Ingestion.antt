-- ===== src/Commands/Ingestion.antt =====
-- cmd/ingestion/main.go. Redis is a parameter; requests come one after another.
use log_morph.Common.{String, some, List, [], ◌∷◌}
use log_morph.Common.Integer.ParseInt.{parse_int}
use log_morph.Common.Text.{◌+++◌}
use log_morph.Models.Encoding.{event_json}
use log_morph.Buffer.{default_raw_stream_name}
use log_morph.Buffer.Redis.{RedisRawBuffer, redis_buffer}
use log_morph.Ingestion.{IngestionService, Environment, State, new_service}
use log_morph.Ingestion.Routes.{Request, Answer, serve}
use log_morph.Commands.{Variables, variable_or, RedisClient, NewClient, new_redis_raw_buffer}

module _ {B I : Type 0} (getenv : Variables) (new_client : NewClient B I) where
  -- the address that the server listens on
  abbrev pub listen_addr : String
  listen_addr = ":" +++ variable_or getenv "PORT" "8080"

  abbrev pub ingestion_buffer : RedisRawBuffer B × RedisClient B I
  ingestion_buffer =
      new_redis_raw_buffer new_client (variable_or getenv "REDIS_ADDR" "localhost:6379")
        (getenv "REDIS_PASSWORD") 0 (parse_int (getenv "RAW_EVENT_STREAM_MAXLEN"))

  unfoldable pub ingestion_service : IngestionService B
  unfolding new_service
  ingestion_service =
      new_service (some (redis_buffer event_json ingestion_buffer.0))
        (variable_or getenv "RAW_STREAM_NAME" default_raw_stream_name)

  -- the server until it is shut down
  serve_all : Environment → List Request → State B → List Answer × State B
  unfolding ingestion_service
  serve_all env [] s = ([], s)
  serve_all env (r ∷ rs) s =
      let (answer, s') = serve env ingestion_service r s in
      let (answers, t) = serve_all env rs s' in (answer ∷ answers, t)

  -- `main`: a ping whose error is only logged, and then the requests
  unfoldable pub ingestion_main : Environment → List Request → State B → List Answer × State B
  unfolding serve_all
  ingestion_main env requests s =
      let (_, b) = (redis_buffer event_json ingestion_buffer.0).ping s.buffer in
      serve_all env requests (record s { buffer = b })
