-- ===== src/Ingestion/Bodies.antt =====
-- `json.NewDecoder(r.Body).Decode` of internal/ingestion/handler.go, by the tags of `IngestRequest` in
-- internal/ingestion/service.go
use log_morph.Common.{String, Option, none, some, List, [], ◌∷◌, Result, ok, err, ◌>>=◌}
use log_morph.Common.Json.{Json, null, boolean, number, text, array, object, Items, no_items, item}
use log_morph.Common.Json.Decode.{Fields, text_field, json_error, from_json}
use log_morph.Common.Json.Stream.{first_value}
use log_morph.Ingestion.{IngestRequest}

unfoldable pub request_fields : Fields IngestRequest
request_fields =
    ("format", text_field (λ r. r.format) (λ r s. record r { format = s }))
    ∷ ("source", text_field (λ r. r.source) (λ r s. record r { source = s }))
    ∷ ("payload", text_field (λ r. r.payload) (λ r s. record r { payload = s }))
    ∷ []

abbrev no_request : IngestRequest
no_request = record { format = ""; source = ""; payload = "" }

-- the body of POST /ingest
unfoldable pub decode_request : String → Result IngestRequest
unfolding from_json first_value request_fields
decode_request body = from_json request_fields no_request (first_value body)

from_items : Items → Result (List IngestRequest)
unfolding from_json request_fields
from_items no_items = ok []
from_items (item v vs) = do
  r ← from_json request_fields no_request (some v)
  rs ← from_items vs
  ok (r ∷ rs)

-- a slice of requests
from_array : Option Json → Result (List IngestRequest)
unfolding from_items
from_array none = err json_error
from_array (some null) = ok []
from_array (some (array vs)) = from_items vs
from_array (some (boolean _)) = err json_error
from_array (some (number _)) = err json_error
from_array (some (text _)) = err json_error
from_array (some (object _)) = err json_error

-- the body of POST /ingest/batch
unfoldable pub decode_batch : String → Result (List IngestRequest)
unfolding from_array first_value
decode_batch body = from_array (first_value body)
