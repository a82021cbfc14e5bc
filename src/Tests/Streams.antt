-- ===== src/Tests/Streams.antt =====
-- A server of one stream, and a batch that goes through it.
use log_morph.Common.{
  ℕ, suc, String, ◌≡◌, ◌≢◌, refl, ap, none, List, [], ◌∷◌, ◌++◌, Result, ok, err,
}
use log_morph.Common.Integer.{pos}
use log_morph.Common.Text.{decimal}
use log_morph.Common.GoMap.{Map, get}
use log_morph.Ingestion.{
  IngestRequest, Environment, State, publish, first_empty, publish_each, ingest_batch,
}
use log_morph.Ingestion.Transport.{redis_service}
use log_morph.Models.Encoding.{event_json, event_json-RoundTrips, marshal_event, unmarshal_event}
use log_morph.Buffer.Redis.{
  Value, XMessage, raw_messages, parse_x_message, redis_publish_raw, redis_read_group, Reply, reply,
  nil_reply, RedisStreams, RedisRawBuffer,
}
use log_morph.Buffer.Redis.Messages.{IsStreams}

abbrev unwrap : {A : Type 0} → A → Result A → A
unwrap a (ok x) = x
unwrap a (err e) = a

-- the entries that have not been read, and the number of the next
pub record Server : Type 0 where
  pub entries : List XMessage
  pub next : ℕ

abbrev pub answer : List XMessage → Reply (List (List XMessage))
answer [] = nil_reply
answer (m ∷ ms) = reply ((m ∷ ms) ∷ [])

-- It answers a read with all that it holds.
abbrev pub client : RedisStreams Server
client = record {
  xadd = λ stream max_len approx values s. (
    ok (decimal s.next),
    record {
      entries = s.entries ++ (record { id = decimal s.next; values = values }) ∷ [];
      next = suc s.next;
    },
  );
  xgroup_create_mkstream = λ stream group start s. (none, s);
  xreadgroup =
      λ group consumer stream start count block s. (answer s.entries, record s { entries = [] });
  xautoclaim = λ stream group consumer min_idle start count s. (nil_reply, s);
  xack = λ stream group ids s. (none, s);
  ping = λ s. (none, s);
  close = λ s. (none, s);
}

pub answers : (ms : List XMessage) → ms ≢ [] → answer ms ≡ reply (ms ∷ [])
answers [] h = absurd (h refl)
answers (m ∷ ms) h = refl

pub appends :
    (values : Map Value) (s : Server) (id : String)
    → ok (decimal s.next) ≡ ok id
    → s.entries ++ (record { id = decimal s.next; values = values }) ∷ []
      ≡ s.entries ++ (record { id = id; values = values }) ∷ []
appends values s id h =
    ap (λ i. s.entries ++ (record { id = i; values = values }) ∷ []) (ap (unwrap "") h)

abbrev pub laws : IsStreams client
laws = record {
  undelivered = λ s stream group. s.entries;
  xadd_appends = λ stream group max_len approx values s id h sent. appends values s id sent;
  xreadgroup_delivers = λ stream group consumer count block s h room. answers s.entries h;
}

abbrev buffer : RedisRawBuffer Server
buffer = record { client = client; max_len = pos 0 }

abbrev pub env : Environment
env = record {
  uuid = λ n. decimal n;
  now = λ n. record { stamp = "2026-01-02T03:04:05Z"; year = 2026 };
}

abbrev pub req : IngestRequest
req = record { format = "json"; source = "fw-1"; payload = "{}" }

abbrev pub idle : State Server
idle = record { buffer = record { entries = []; next = 1 }; made = 0 }

computes : Unit {0}
unfolding ingest_batch publish_each first_empty publish decimal raw_messages redis_publish_raw
    redis_read_group parse_x_message get marshal_event unmarshal_event
computes = tt

abbrev after_batch : Server
after_batch =
    (ingest_batch env (redis_service event_json buffer laws event_json-RoundTrips refl "" "")
      (req ∷ req ∷ []) idle).1.buffer
