-- ===== src/Storage/Minio.antt =====
-- internal/storage/raw/minio.go. The client of the object store is a parameter, and
-- the JSON code of an event an interface, which Models/Encoding fills.
pub mod Objects
use log_morph.Common.{
  String, Bool, true, false, Option, none, some, Error, message, wrap, Result, ok, err, in_context,
  ◌==◌, if◌then◌else◌,
}
use log_morph.Common.Text.{◌+++◌}
use log_morph.Models.{RawEvent, EventJson}
use log_morph.Storage.{RawEventStore}

-- The calls of the client, over the state S of the server. `GetObject` may fail, and so may
-- `io.ReadAll` of the object that it returns.
pub record ObjectStore (S : Type 0) : Type 0 where
  pub bucket_exists : (bucket : String) → S → Result Bool × S
  pub make_bucket : (bucket : String) → S → Option Error × S
  pub put_object : (bucket name content : String) → S → Option Error × S
  pub get_object : (bucket name : String) → S → Result (Result String) × S

-- `MinIORawStore`
pub record MinioRawStore (S : Type 0) : Type 0 where
  pub client : ObjectStore S
  pub bucket : String

abbrev pub object_name : String → String
object_name event_id = event_id +++ ".json"

module _ {S : Type 0} where
  abbrev made : MinioRawStore S → Option Error → Result (MinioRawStore S)
  made store none = ok store
  made store (some e) = err (wrap ("failed to create bucket \"" +++ store.bucket +++ "\"") e)

  ensure_bucket : MinioRawStore S → Result Bool → S → Result (MinioRawStore S) × S
  ensure_bucket store (err e) s = (err (wrap "failed to check bucket existence" e), s)
  ensure_bucket store (ok true) s = (ok store, s)
  ensure_bucket store (ok false) s =
      let (failed, s') = store.client.make_bucket store.bucket s in (made store failed, s')

  -- `NewMinIORawStore`, on what `minio.New` has returned. A bucket's name has
  -- no characters that `%q` escapes.
  unfoldable pub new_minio_store :
      Result (ObjectStore S) → String → S → Result (MinioRawStore S) × S
  unfolding ensure_bucket
  new_minio_store (err e) bucket_name s = (err (wrap "failed to create minio client" e), s)
  new_minio_store (ok client) bucket_name s =
      let bucket = if bucket_name == "" then "raw-events" else bucket_name in
      let (exists, s') = client.bucket_exists bucket s in
      ensure_bucket (record { client = client; bucket = bucket }) exists s'

  module _ (json : EventJson) (m : MinioRawStore S) where
    abbrev pub storing_error : Option Error → Option Error
    storing_error none = none
    storing_error (some e) = some (wrap "failed to store raw event in minio" e)

    abbrev pub put_data : String → Result String → S → Option Error × S
    put_data name (err e) s = (some (wrap "failed to marshal raw event" e), s)
    put_data name (ok content) s =
        let (failed, s') = m.client.put_object m.bucket name content s in (storing_error failed, s')

    -- `Put` of an event that is not nil
    unfoldable pub minio_put : RawEvent → S → Option Error × S
    minio_put event s =
        if event.event_id == ""
        then (some (message "invalid raw event or empty event_id"), s)
        else put_data (object_name event.event_id) (json.marshal event) s

    abbrev decoded : Result String → Result RawEvent
    decoded (err e) = err (wrap "failed to read raw event content" e)
    decoded (ok content) = in_context "failed to unmarshal raw event" (json.unmarshal content)

    abbrev pub object : Result (Result String) → Result RawEvent
    object (err e) = err (wrap "failed to get raw event object" e)
    object (ok read) = decoded read

    -- `Get`
    unfoldable pub minio_get : String → S → Result RawEvent × S
    minio_get event_id s =
        let (found, s') = m.client.get_object m.bucket (object_name event_id) s in
        (object found, s')

    abbrev pub minio_raw_store : RawEventStore S
    minio_raw_store = record { put = minio_put; get = minio_get }
