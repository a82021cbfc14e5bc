-- ===== src/Tests/Objects.antt =====
-- An object store that keeps its objects in a map, whatever the bucket.
use log_morph.Common.{
  String, ◌≡◌, refl, ap, false, Option, none, some, Result, ok, err, message, ◌==◌,
}
use log_morph.Common.GoMap.{Map, empty, get, put, get-put}
use log_morph.Storage.Minio.{ObjectStore, MinioRawStore, minio_put, minio_get}
use log_morph.Storage.Minio.Objects.{IsObjectStore, archived, minio_put-get}
use log_morph.Tests.Fixtures.{sample_event}
use log_morph.Models.Encoding.{event_json, event_json-RoundTrips}

abbrev answer : Option String → Result (Result String)
answer none = err (message "The specified key does not exist.")
answer (some s) = ok (ok s)

abbrev client : ObjectStore (Map String)
client = record {
  bucket_exists = λ bucket s. (ok false, s);
  make_bucket = λ bucket s. (none, s);
  put_object = λ bucket name content s. (none, put s name content);
  get_object = λ bucket name s. (answer (get s name), s);
}

abbrev laws : IsObjectStore client
laws = record {
  objects = λ s bucket name. get s name;
  put_stores = λ bucket name content s h other. get-put s name content other;
  get_reads = λ bucket name s content h. ap answer h;
}

abbrev store : MinioRawStore (Map String)
store = record { client = client; bucket = "raw-events" }

minio_put-get_example :
    ((minio_get event_json store "evt_1" (minio_put event_json store sample_event empty).1).0
      ≡ ok sample_event)
    × ((id : String)
        → ("evt_1" == id) ≡ false
        → archived event_json store laws event_json-RoundTrips
            (minio_put event_json store sample_event empty).1
            id
          ≡ archived event_json store laws event_json-RoundTrips empty id)
unfolding minio_put
minio_put-get_example =
    minio_put-get event_json store laws event_json-RoundTrips sample_event empty refl
