-- ===== src/Ingestion/Routes.antt =====
-- internal/ingestion/handler.go: the routes, on the patterns that `http.ServeMux` documents.
use log_morph.Common.{String, ◌&&◌, ◌||◌, Option, none, some, ◌==◌, if◌then◌else◌}
use log_morph.Ingestion.{IngestionService, Environment, State}
use log_morph.Ingestion.Bodies.{decode_request, decode_batch}
use log_morph.Ingestion.Handler.{Response, handle_ingest, handle_ingest_batch}

-- `http.Request`
pub record Request : Type 0 where
  pub method : String
  pub path : String
  pub body : String

pub data Route : Type 0 where
  to_ingest_batch to_ingest to_health : Route

-- `RegisterRoutes`. A pattern with the method GET is for HEAD as well.
unfoldable pub route : String → String → Option Route
route method path =
    if method == "POST" && path == "/ingest/batch"
    then some to_ingest_batch
    else (if method == "POST" && path == "/ingest"
        then some to_ingest
        else (if (method == "GET" || method == "HEAD") && path == "/health"
            then some to_health
            else none))

-- an ingestion response, the `status` of a health check, or what the mux says itself
pub data Answer : Type 0 where
  handled : Response → Answer
  healthy : String → Answer
  unrouted : Answer

module _ {B : Type 0} (env : Environment) (svc : IngestionService B) where
  abbrev answered : Response × State B → Answer × State B
  answered (r, s) = (handled r, s)

  dispatch : Option Route → String → State B → Answer × State B
  dispatch none body s = (unrouted, s)
  dispatch (some to_health) body s = (healthy "ok", s)
  dispatch (some to_ingest) body s = answered (handle_ingest env svc (decode_request body) s)
  dispatch (some to_ingest_batch) body s =
      answered (handle_ingest_batch env svc (decode_batch body) s)

  -- the mux with the registered handlers
  unfoldable pub serve : Request → State B → Answer × State B
  unfolding dispatch route
  serve r s = dispatch (route r.method r.path) r.body s
