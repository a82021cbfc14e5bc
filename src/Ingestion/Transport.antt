-- ===== src/Ingestion/Transport.antt =====
-- From the ingestion service through the Redis stream to a consumer.
use log_morph.Common.{
  ℕ, ◌≤◌, String, ◌≡◌, refl, ap, ◌∙◌, sym, Option, none, some, List, [], ◌∷◌, ◌++◌, Error, Result,
  ok, err, length, All, Option-cases, inl, inr,
}
use log_morph.Common.Integer.{ℤ, pos}
use log_morph.Models.{RawEvent, EventJson, RoundTrips}
use log_morph.Buffer.{RawMessage}
use log_morph.Buffer.Redis.{RedisRawBuffer, redis_buffer, redis_read_group, redis_publish_raw}
use log_morph.Buffer.Redis.Messages.{
  IsStreams, message_events, pending_events, entries, redis_publish_raw-pending,
  redis_read_group-pending,
}
use log_morph.Ingestion.{
  IngestRequest, IngestionService, Environment, State, publish, publish_to, buffering_error,
  first_empty, checked, ingest_batch,
}
use log_morph.Ingestion.Batches.{
  events, publish_all, unless_failed, ids_or_error, HasPayload, first_empty-some,
  ingest_batch_exact,
}

module _ {S : Type 0} (json : EventJson) (r : RedisRawBuffer S) (laws : IsStreams r.client)
    (trips : RoundTrips json) (unbounded : r.max_len ≡ pos 0) (stream group : String) where
  -- the service over the Redis buffer
  abbrev pub redis_service : IngestionService S
  redis_service = record { raw_buffer = some (redis_buffer json r); stream = stream }

  abbrev pub waiting : S → List RawEvent
  waiting = pending_events json r laws trips unbounded stream group

  sent-ok : (x : Result String) → buffering_error x ≡ none → (id : String) × (x ≡ ok id)
  sent-ok (ok id) h = (id, refl)
  sent-ok (err e) h = cc

  publish-waiting :
      (e : RawEvent) (s : S)
      → (publish redis_service e s).0 ≡ none
      → waiting (publish redis_service e s).1 ≡ waiting s ++ e ∷ []
  unfolding publish publish_to
  publish-waiting e s h =
      let (id, sent) = sent-ok (redis_publish_raw json r stream e s).0 h in
      redis_publish_raw-pending json r laws trips unbounded stream group e s id sent

  append_assoc :
      (xs : List RawEvent) (y : RawEvent) (zs : List RawEvent) → (xs ++ y ∷ []) ++ zs ≡ xs ++ y ∷ zs
  append_assoc [] y zs = refl
  append_assoc (x ∷ xs) y zs = ap (◌∷◌ x) (append_assoc xs y zs)

  append_nil : (xs : List RawEvent) → xs ≡ xs ++ []
  append_nil [] = refl
  append_nil (x ∷ xs) = ap (◌∷◌ x) (append_nil xs)

  both_sent :
      (o : Option Error) (b : S) (rest : Option Error × S)
      → (unless_failed o b rest).0 ≡ none
      → (o ≡ none) × (rest.0 ≡ none) × (unless_failed o b rest ≡ rest)
  both_sent none b rest h = (refl, h, refl)
  both_sent (some e) b rest h = cc

  publish_all-waiting :
      (evs : List RawEvent) (s : S)
      → (publish_all redis_service evs s).0 ≡ none
      → waiting (publish_all redis_service evs s).1 ≡ waiting s ++ evs
  publish_all-waiting [] s h = append_nil (waiting s)
  publish_all-waiting (e ∷ evs) s h =
      let (one, others, same) = both_sent _ _ _ h in
      ap (λ r. waiting r.1) same
      ∙ (publish_all-waiting evs (publish redis_service e s).1 others
          ∙ (ap (λ xs. xs ++ evs) (publish-waiting e s one) ∙ append_assoc (waiting s) e evs))

  none_failed :
      (o : Option Error) (evs : List RawEvent) (ids : List String)
      → ids_or_error o evs ≡ ok ids
      → o ≡ none
  none_failed none evs ids h = refl
  none_failed (some e) evs ids h = cc

  All-have_payload :
      (env : Environment) (req : IngestRequest) (reqs : List IngestRequest) (s : State S)
      (ids : List String)
      → (ingest_batch env redis_service (req ∷ reqs) s).0 ≡ ok ids
      → All HasPayload (req ∷ reqs)
  unfolding ingest_batch
  All-have_payload env req reqs s ids h = elim (Option-cases (first_empty 0 (req ∷ reqs))) [
    | inl none_empty ↦ first_empty-some 0 (req ∷ reqs) none_empty
    | inr (i, found) ↦
        absurd (refused (ap (λ o. (checked env redis_service o (req ∷ reqs) s).0) (sym found) ∙ h))
  ]
    where
      refused : {e : Error} → err e ≡ ok ids → ⊥
      refused same = cc

  -- What `IngestBatch` has accepted into a stream with nothing pending is what the next `ReadGroup`
  -- of the group returns, in the batch's order: every event whole, and nothing else. The stream is
  -- not trimmed, unmarshalling undoes marshalling, and the read has room for the whole batch.
  pub accepted_batch_is_delivered :
      (env : Environment) (req : IngestRequest) (reqs : List IngestRequest) (s : State S)
      (ids : List String) (consumer : String) (count : ℕ) (block : ℤ)
      → waiting s.buffer ≡ []
      → (ingest_batch env redis_service (req ∷ reqs) s).0 ≡ ok ids
      → length (
          entries json r laws trips unbounded stream group
            (ingest_batch env redis_service (req ∷ reqs) s).1.buffer)
        ≤ count
      → (messages : List RawMessage) × ((redis_read_group json r stream group consumer
            (pos count)
            block
            (ingest_batch env redis_service (req ∷ reqs) s).1.buffer).0
          ≡ ok messages)
        × (message_events messages ≡ events env s.made (req ∷ reqs))
  accepted_batch_is_delivered env req reqs s ids consumer count block idle accepted room =
      let payloads = All-have_payload env req reqs s ids accepted in
      let (answer, left) = ingest_batch_exact env redis_service req reqs s payloads in
      let sent = none_failed _ _ _ (sym answer ∙ accepted) in
      let arrived =
        ap waiting left
        ∙ (publish_all-waiting (events env s.made (req ∷ reqs)) s.buffer sent
            ∙ ap (λ xs. xs ++ events env s.made (req ∷ reqs)) idle) in
      (
        _,
        redis_read_group-pending json r laws trips unbounded stream group consumer count block _
            (λ nothing. not_empty (sym arrived ∙ nothing)) room,
        arrived,
      )
    where
      not_empty : {x : RawEvent} {xs : List RawEvent} → x ∷ xs ≡ [] → ⊥
      not_empty same = cc
