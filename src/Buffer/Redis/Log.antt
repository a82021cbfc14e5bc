-- ===== src/Buffer/Redis/Log.antt =====
-- What the worker's loop relies on in a Redis stream, as XADD, XREADGROUP, XAUTOCLAIM and XACK are
-- documented: an entry keeps its id and its values, and only XACK acknowledges. No entry is trimmed.
use log_morph.Common.{
  String, ◌≡◌, ap, ◌⊎◌, Bool, true, Option, none, some, List, [], ◌∷◌, All, Result, ok, err, refl,
}
use log_morph.Common.Integer.{ℤ}
use log_morph.Common.GoMap.{Map, get}
use log_morph.Models.{RawEvent, EventJson}
use log_morph.Buffer.{RawMessage}
use log_morph.Buffer.Redis.{
  Value, XMessage, Reply, reply, nil_reply, failed, RedisStreams, RedisRawBuffer, redis_buffer,
  redis_read_group, redis_claim_pending, redis_ensure_group, redis_ack, raw_messages,
  parse_x_message, append_if, stream_or_default, group_or_default, read_reply, claim_reply,
  as_message, decoded,
}
use log_morph.Worker.Loop.Acked.{AckView, IsSameLog, TracksAcks}
use log_morph.Worker.Loop.Invariant.{AllOf}

-- the entries that XREADGROUP and XAUTOCLAIM answer with
abbrev pub first_of : List (List XMessage) → List XMessage
first_of [] = []
first_of (messages ∷ _) = messages

abbrev pub read_entries : Reply (List (List XMessage)) → List XMessage
read_entries (reply streams) = first_of streams
read_entries nil_reply = []
read_entries (failed _) = []

abbrev pub claimed_entries : Reply (List XMessage) → List XMessage
claimed_entries (reply messages) = messages
claimed_entries nil_reply = []
claimed_entries (failed _) = []

-- the ids that the group has acknowledged, and the values of the entry with an id
pub record Log (S : Type 0) : Type 0 where
  pub is_acked : S → String → Bool
  pub values : S → String → Map Value

pub record IsSame {S : Type 0} (l : Log S) (s t : S) : Type 0 where
  pub acks : (j : String) → l.is_acked t j ≡ l.is_acked s j
  pub entries : (j : String) → l.values t j ≡ l.values s j

pub record IsLog {S : Type 0} (c : RedisStreams S) (stream group : String) (l : Log S)
    : Type 0 where
  pub xack_only :
      (id : String) (s : S) (j : String)
      → l.is_acked (c.xack stream group (id ∷ []) s).1 j ≡ true
      → (id ≡ j) ⊎ (l.is_acked s j ≡ true)
  pub xack_entries :
      (id : String) (s : S) (j : String)
      → l.values (c.xack stream group (id ∷ []) s).1 j ≡ l.values s j
  pub xgroup_create_log :
      (start : String) (s : S) → IsSame l s (c.xgroup_create_mkstream stream group start s).1
  pub xreadgroup_log :
      (consumer start : String) (count block : ℤ) (s : S)
      → IsSame l s (c.xreadgroup group consumer stream start count block s).1
  pub xautoclaim_log :
      (consumer : String) (min_idle : ℤ) (start : String) (count : ℤ) (s : S)
      → IsSame l s (c.xautoclaim stream group consumer min_idle start count s).1
  pub xreadgroup_entries :
      (consumer start : String) (count block : ℤ) (s : S)
      → All
          (λ m. l.values s m.id ≡ m.values)
          (read_entries (c.xreadgroup group consumer stream start count block s).0)
  pub xautoclaim_entries :
      (consumer : String) (min_idle : ℤ) (start : String) (count : ℤ) (s : S)
      → All
          (λ m. l.values s m.id ≡ m.values)
          (claimed_entries (c.xautoclaim stream group consumer min_idle start count s).0)

module _ (json : EventJson) where
  abbrev id_of : Option RawMessage → String
  id_of none = ""
  id_of (some m) = m.event.event_id

  -- the id of the event in an entry
  abbrev pub event_id_of : String → Map Value → String
  event_id_of id values = id_of (parse_x_message json (record { id = id; values = values }))

  -- acknowledgements and events, as the worker sees them
  abbrev pub view_of : {S : Type 0} → Log S → AckView S
  view_of l = record { is_acked = l.is_acked; event_of = λ s id. event_id_of id (l.values s id) }

  module _ {S : Type 0} (l : Log S) where
    same_log : {s t : S} → IsSame l s t → IsSameLog (view_of l) s t
    same_log same = record { acks = same.acks; events = λ j. ap (event_id_of j) (same.entries j) }

    abbrev IsOf : S → RawMessage → Type 0
    IsOf s m = (view_of l).event_of s m.id ≡ m.event.event_id

    decoded_is :
        (id : String) (r : Result RawEvent) (m : RawMessage)
        → decoded json id r ≡ some m
        → m.id ≡ id
    decoded_is id (ok event) m h = cc
    decoded_is id (err _) m h = cc

    parsed_id :
        (id : String) (o : Option Value) (m : RawMessage)
        → as_message json id o ≡ some m
        → m.id ≡ id
    parsed_id id none m h = cc
    parsed_id id (some Value.other) m h = cc
    parsed_id id (some (Value.text payload)) m h = decoded_is id (json.unmarshal payload) m h

    parse_x_message-id :
        (x : XMessage) (m : RawMessage) → parse_x_message json x ≡ some m → m.id ≡ x.id
    unfolding parse_x_message
    parse_x_message-id x m h = parsed_id x.id (get x.values "payload") m h

    one_is :
        (s : S) (x : XMessage) (o : Option RawMessage) (ms : List RawMessage)
        → parse_x_message json x ≡ o
        → l.values s x.id ≡ x.values
        → All (IsOf s) ms
        → All (IsOf s) (append_if json o ms)
    one_is s x none ms e same h = h
    one_is s x (some m) ms e same h = (rw (parse_x_message-id x m e, same) (ap id_of e), h)

    all_are :
        (s : S) (xs : List XMessage)
        → All (λ x. l.values s x.id ≡ x.values) xs
        → All (IsOf s) (raw_messages json xs)
    unfolding raw_messages
    all_are s [] h = tt
    all_are s (x ∷ xs) (p, h) = one_is s x _ _ refl p (all_are s xs h)

    read_are :
        (s : S) (r : Reply (List (List XMessage)))
        → All (λ x. l.values s x.id ≡ x.values) (read_entries r)
        → AllOf (IsOf s) (read_reply json r)
    read_are s (reply []) h = all_are s [] h
    read_are s (reply (xs ∷ _)) h = all_are s xs h
    read_are s nil_reply h = tt
    read_are s (failed _) h = tt

    claimed_are :
        (stream : String) (s : S) (r : Reply (List XMessage))
        → All (λ x. l.values s x.id ≡ x.values) (claimed_entries r)
        → AllOf (IsOf s) (claim_reply json stream r)
    claimed_are stream s (reply xs) h = all_are s xs h
    claimed_are stream s nil_reply h = tt
    claimed_are stream s (failed _) h = tt

  -- so the Redis buffer keeps what the loop relies on
  pub redis_buffer-TracksAcks :
      {S : Type 0} (r : RedisRawBuffer S) (stream group : String) {l : Log S}
      → IsLog r.client (stream_or_default stream) (group_or_default group) l
      → TracksAcks (redis_buffer json r) stream group (view_of l)
  unfolding redis_ack redis_ensure_group redis_read_group redis_claim_pending
  redis_buffer-TracksAcks r stream group {l = l} laws = record {
    ack_only = laws.xack_only;
    ack_events = λ id s j. ap (event_id_of j) (laws.xack_entries id s j);
    ensure_log = λ s. same_log l (laws.xgroup_create_log "$" s);
    read_log =
        λ consumer count block s. same_log l (laws.xreadgroup_log consumer ">" count block s);
    claim_log = λ consumer min_idle count s.
        same_log l (laws.xautoclaim_log consumer min_idle "0-0" count s);
    read_events = λ consumer count block s.
        read_are l s _ (laws.xreadgroup_entries consumer ">" count block s);
    claim_events = λ consumer min_idle count s.
        claimed_are l _ s _ (laws.xautoclaim_entries consumer min_idle "0-0" count s);
  }
