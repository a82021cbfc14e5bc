-- ===== src/Buffer/Redis/Messages.antt =====
-- What goes into the stream and what comes out of it: Redis streams as their documentation
-- describes them for a consumer group, without trimming.
use log_morph.Common.{
  ℕ, ◌≤◌, String, ◌≡◌, ◌≢◌, refl, ap, Bool, Option, none, some, List, [], ◌∷◌, ◌++◌, map, Result,
  ok, err, length,
}
use log_morph.Common.Integer.{ℤ, pos}
use log_morph.Common.GoMap.{Map, get}
use log_morph.Models.{RawEvent, EventJson, RoundTrips}
use log_morph.Buffer.{RawMessage}
use log_morph.Buffer.Redis.{
  Value, XMessage, reply, RedisStreams, RedisRawBuffer, published_values, parse_x_message,
  raw_messages, append_if, added, add, stream_or_default, group_or_default, redis_publish_raw,
  redis_read_group,
}

pub record IsStreams {S : Type 0} (c : RedisStreams S) : Type 0 where
  -- the entries of a stream that no consumer of the group has been given
  pub undelivered : S → (stream group : String) → List XMessage
  pub xadd_appends :
      (stream group : String) (max_len : ℤ) (approx : Bool) (values : Map Value) (s : S)
      (id : String)
      → max_len ≡ pos 0
      → (c.xadd stream max_len approx values s).0 ≡ ok id
      → undelivered (c.xadd stream max_len approx values s).1 stream group
        ≡ undelivered s stream group ++ (record { id = id; values = values }) ∷ []
  pub xreadgroup_delivers :
      (stream group consumer : String) (count : ℕ) (block : ℤ) (s : S)
      → undelivered s stream group ≢ []
      → length (undelivered s stream group) ≤ count
      → (c.xreadgroup group consumer stream ">" (pos count) block s).0
        ≡ reply (undelivered s stream group ∷ [])

abbrev pub message_events : List RawMessage → List RawEvent
message_events ms = map (λ m. m.event) ms

module _ (json : EventJson) where
  append_if-append :
      (o : Option RawMessage) (xs ys : List RawMessage)
      → append_if json o (xs ++ ys) ≡ append_if json o xs ++ ys
  append_if-append none xs ys = refl
  append_if-append (some m) xs ys = refl

  pub raw_messages-append :
      (xs ys : List XMessage)
      → raw_messages json (xs ++ ys) ≡ raw_messages json xs ++ raw_messages json ys
  unfolding raw_messages
  raw_messages-append [] ys = refl
  raw_messages-append (x ∷ xs) ys =
      rw (raw_messages-append xs ys) (append_if-append (parse_x_message json x) _ _)

  -- A published entry comes back as the message with the entry's id and the published event.
  pub parse-published :
      RoundTrips json
      → (id payload : String) (event : RawEvent) → json.marshal event ≡ ok payload
      → parse_x_message json (record { id = id; values = published_values event payload })
        ≡ some (record { id = id; event = event })
  unfolding parse_x_message get
  parse-published trips id payload event h = rw (trips event payload h)

module _ {S : Type 0} (json : EventJson) (r : RedisRawBuffer S) (laws : IsStreams r.client)
    (trips : RoundTrips json) (unbounded : r.max_len ≡ pos 0) (stream group : String) where
  -- the events that a consumer of the group would read
  abbrev pub pending_events : S → List RawEvent
  pending_events s =
      message_events
        (raw_messages json (laws.undelivered s (stream_or_default stream) (group_or_default group)))

  events-append :
      (xs : List RawMessage) (m : RawMessage)
      → message_events (xs ++ m ∷ []) ≡ message_events xs ++ m.event ∷ []
  events-append [] m = refl
  events-append (x ∷ xs) m = ap (◌∷◌ x.event) (events-append xs m)

  published_events :
      (ms : List XMessage) (e : RawEvent) (payload id : String)
      → json.marshal e ≡ ok payload
      → message_events
          (raw_messages json (ms ++ (record { id = id; values = published_values e payload }) ∷ []))
        ≡ message_events (raw_messages json ms) ++ e ∷ []
  unfolding raw_messages
  published_events ms e payload id h =
      rw (raw_messages-append json ms _, parse-published json trips id payload e h)
        (events-append (raw_messages json ms) _)

  added-ok : (name id : String) (x : Result String) → added json r name x ≡ ok id → x ≡ ok id
  added-ok name id (ok i) h = h
  added-ok name id (err e) h = cc

  abbrev pub entries : S → List XMessage
  entries s = laws.undelivered s (stream_or_default stream) (group_or_default group)

  add-pending :
      (e : RawEvent) (s : S) (id : String) (m : Result String)
      → json.marshal e ≡ m
      → (add json r (stream_or_default stream) e m s).0 ≡ ok id
      → message_events (raw_messages json (entries (add json r (stream_or_default stream) e m s).1))
        ≡ message_events (raw_messages json (entries s)) ++ e ∷ []
  add-pending e s id (err x) h sent = cc
  add-pending e s id (ok payload) h sent =
      let xadded = added-ok (stream_or_default stream) id _ sent in
      rw
        (laws.xadd_appends (stream_or_default stream) (group_or_default group) r.max_len _
          (published_values e payload) s id unbounded xadded)
        (published_events (entries s) e payload id h)

  -- A publication that succeeds adds its event at the end.
  pub redis_publish_raw-pending :
      (e : RawEvent) (s : S) (id : String)
      → (redis_publish_raw json r stream e s).0 ≡ ok id
      → pending_events (redis_publish_raw json r stream e s).1 ≡ pending_events s ++ e ∷ []
  unfolding redis_publish_raw
  redis_publish_raw-pending e s id sent = add-pending e s id (json.marshal e) refl sent

  -- A read with room for all that is pending returns it, and tells nothing else.
  pub redis_read_group-pending :
      (consumer : String) (count : ℕ) (block : ℤ) (s : S)
      → pending_events s ≢ []
      → length (entries s) ≤ count
      → (redis_read_group json r stream group consumer (pos count) block s).0
        ≡ ok (raw_messages json (entries s))
  unfolding redis_read_group
  redis_read_group-pending consumer count block s some_pending room =
      rw
        (laws.xreadgroup_delivers (stream_or_default stream) (group_or_default group) consumer count
          block s (λ none_left. some_pending (rw none_left refl)) room)
        refl
