-- ===== src/Buffer/Redis.antt =====
-- internal/buffer/redis.go: `RedisRawBuffer`. The go-redis client is a parameter, and the
-- JSON code of an event an interface, which Models/Encoding fills.
pub mod Messages
pub mod Log
use log_morph.Common.{
  ℕ, String, Bool, true, false, Option, none, some, List, [], ◌∷◌, Error, wrap, error_text, Result,
  ok, err, ◌==◌, if◌then◌else◌,
}
use log_morph.Common.Integer.{ℤ, pos, is_positive}
use log_morph.Common.Text.{◌+++◌, contains}
use log_morph.Common.GoMap.{Map, get}
use log_morph.Models.{RawEvent, EventJson}
use log_morph.Buffer.{RawMessage, RawBuffer, default_raw_stream_name, default_group_name}

-- an `interface{}`: the code asks whether it is a string
pub data Value : Type 0 where
  text : String → Value
  other : Value

-- `goredis.XMessage`
pub record XMessage : Type 0 where
  pub id : String
  pub values : Map Value

-- what a read answers: messages, `goredis.Nil`, or another error
pub data Reply (A : Type 0) : Type 0 where
  reply : A → Reply A
  nil_reply : Reply A
  failed : Error → Reply A

-- The stream commands, over the state S of the server. `xreadgroup` returns the messages of each
-- of the streams that it read.
pub record RedisStreams (S : Type 0) : Type 0 where
  pub xadd :
      (stream : String) (max_len : ℤ) (approx : Bool) (values : Map Value) → S → Result String × S
  pub xgroup_create_mkstream : (stream group start : String) → S → Option Error × S
  pub xreadgroup :
      (group consumer stream start : String) (count block : ℤ)
      → S
      → Reply (List (List XMessage)) × S
  pub xautoclaim :
      (stream group consumer : String) (min_idle : ℤ) (start : String) (count : ℤ)
      → S
      → Reply (List XMessage) × S
  pub xack : (stream group : String) (ids : List String) → S → Option Error × S
  pub ping : S → Option Error × S
  pub close : S → Option Error × S

abbrev stream_or_default : String → String
stream_or_default stream = if stream == "" then default_raw_stream_name else stream

abbrev group_or_default : String → String
group_or_default group = if group == "" then default_group_name else group

-- `RedisRawBuffer`
pub record RedisRawBuffer (S : Type 0) : Type 0 where
  pub client : RedisStreams S
  pub max_len : ℤ

abbrev pub published_values : RawEvent → String → Map Value
published_values event payload_json =
    ("event_id", text event.event_id) ∷ ("payload", text payload_json) ∷ []

module _ (json : EventJson) where
  abbrev decoded : String → Result RawEvent → Option RawMessage
  decoded id (ok event) = some (record { id = id; event = event })
  decoded id (err _) = none

  abbrev as_message : String → Option Value → Option RawMessage
  as_message id (some (text payload)) = decoded id (json.unmarshal payload)
  as_message id (some other) = none
  as_message id none = none

  -- `parseXMessage`
  unfoldable pub parse_x_message : XMessage → Option RawMessage
  parse_x_message msg = as_message msg.id (get msg.values "payload")

  abbrev append_if : Option RawMessage → List RawMessage → List RawMessage
  append_if none rest = rest
  append_if (some m) rest = m ∷ rest

  -- the loop over `parseXMessage`
  unfoldable pub raw_messages : List XMessage → List RawMessage
  unfolding parse_x_message
  raw_messages [] = []
  raw_messages (msg ∷ msgs) = append_if (parse_x_message msg) (raw_messages msgs)

  abbrev pub first_stream : List (List XMessage) → List XMessage
  first_stream [] = []
  first_stream (messages ∷ _) = messages

  abbrev read_reply : Reply (List (List XMessage)) → Result (List RawMessage)
  read_reply (reply streams) = ok (raw_messages (first_stream streams))
  read_reply nil_reply = ok []
  read_reply (failed e) = err e

  abbrev claim_reply : String → Reply (List XMessage) → Result (List RawMessage)
  claim_reply stream (reply messages) = ok (raw_messages messages)
  claim_reply stream nil_reply = ok []
  claim_reply stream (failed e) = err (wrap ("XAUTOCLAIM failed on stream " +++ stream) e)

  module _ {S : Type 0} (r : RedisRawBuffer S) where
    abbrev added : String → Result String → Result String
    added stream (ok id) = ok id
    added stream (err e) = err (wrap ("failed to XAdd to stream " +++ stream) e)

    abbrev add : String → RawEvent → Result String → S → Result String × S
    add stream event (err e) s = (err (wrap "failed to marshal raw event" e), s)
    add stream event (ok payload_json) s =
        let (id, s') =
          r.client.xadd stream r.max_len (is_positive r.max_len)
            (published_values event payload_json) s in
        (added stream id, s')

    -- `PublishRaw`
    unfoldable pub redis_publish_raw : String → RawEvent → S → Result String × S
    redis_publish_raw stream event = add (stream_or_default stream) event (json.marshal event)

    abbrev group_error : Option Error → Option Error
    group_error none = none
    group_error (some e) =
        if contains (error_text e) "BUSYGROUP"
        then none
        else some (wrap "failed to create consumer group" e)

    -- `EnsureGroup`
    unfoldable pub redis_ensure_group : String → String → S → Option Error × S
    redis_ensure_group stream group s =
        let (e, s') =
          r.client.xgroup_create_mkstream (stream_or_default stream) (group_or_default group) "$"
            s in
        (group_error e, s')

    -- `ReadGroup`
    unfoldable pub redis_read_group :
        String → String → String → ℤ → ℤ → S → Result (List RawMessage) × S
    unfolding raw_messages
    redis_read_group stream group consumer count block s =
        let (answer, s') =
          r.client.xreadgroup (group_or_default group) consumer (stream_or_default stream) ">" count
            block s in
        (read_reply answer, s')

    -- `ClaimPending`
    unfoldable pub redis_claim_pending :
        String → String → String → ℤ → ℤ → S → Result (List RawMessage) × S
    unfolding raw_messages
    redis_claim_pending stream group consumer min_idle count s =
        let (answer, s') =
          r.client.xautoclaim (stream_or_default stream) (group_or_default group) consumer min_idle
            "0-0" count s in
        (claim_reply (stream_or_default stream) answer, s')

    -- `Ack`
    unfoldable pub redis_ack : String → String → List String → S → Option Error × S
    redis_ack stream group ids =
        r.client.xack (stream_or_default stream) (group_or_default group) ids

    abbrev pub redis_buffer : RawBuffer S
    redis_buffer = record {
      publish_raw = redis_publish_raw;
      ensure_group = redis_ensure_group;
      read_group = redis_read_group;
      ack = redis_ack;
      claim_pending = redis_claim_pending;
      ping = r.client.ping;
      close = r.client.close;
    }
