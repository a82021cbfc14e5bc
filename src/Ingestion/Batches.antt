-- ===== src/Ingestion/Batches.antt =====
-- What a batch leaves in the buffer.
use text.Mathlib.TextLemmas.{append_cancel_left}
use log_morph.Common.{
  ℕ, suc, ◌<◌, String, ◌≡◌, ◌≢◌, ◌⊎◌, inl, inr, refl, Option, none, some, List, [], ◌∷◌, map, Error,
  Result, ok, err, arith, eq_iff, Option-cases, All,
}
use log_morph.Common.Text.{◌+++◌}
use log_morph.Models.{RawEvent}
use log_morph.Ingestion.{
  IngestRequest, IngestionService, Environment, State, make_event, publish, first_empty,
  publish_each, ingest_batch, then_ids,
}

-- the events of a batch, made one after the other
abbrev pub events : Environment → ℕ → List IngestRequest → List RawEvent
events env n [] = []
events env n (req ∷ reqs) = make_event env n req ∷ events env (suc n) reqs

abbrev pub unless_failed : {B : Type 0} → Option Error → B → Option Error × B → Option Error × B
unless_failed (some e) b rest = (some e, b)
unless_failed none b rest = rest

-- Publishing a list of events in order, up to the first that fails.
abbrev pub publish_all : {B : Type 0} → IngestionService B → List RawEvent → B → Option Error × B
publish_all svc [] b = (none, b)
publish_all svc (event ∷ events) b =
    let rest = publish_all svc events (publish svc event b).1 in
    unless_failed (publish svc event b).0 (publish svc event b).1 rest

abbrev pub ids : List RawEvent → List String
ids evs = map (λ e. e.event_id) evs

abbrev pub ids_or_error : Option Error → List RawEvent → Result (List String)
ids_or_error none evs = ok (ids evs)
ids_or_error (some e) evs = err e

abbrev pub HasPayload : IngestRequest → Type 0
HasPayload req = req.payload ≢ ""

module _ {B : Type 0} (env : Environment) (svc : IngestionService B) where
  then_ids-eq :
      (event : RawEvent) (r : Result (List String) × State B) (o : Option Error)
      (evs : List RawEvent) (b : B)
      → r.0 ≡ ids_or_error o evs
      → r.1.buffer ≡ b
      → ((then_ids env svc r event).0 ≡ ids_or_error o (event ∷ evs))
        × ((then_ids env svc r event).1.buffer ≡ b)
  then_ids-eq event (ok xs, s) none evs b same at = (ground arith, at)
  then_ids-eq event (ok xs, s) (some e) evs b same at = cc
  then_ids-eq event (err x, s) none evs b same at = cc
  then_ids-eq event (err x, s) (some e) evs b same at = (same, at)

  publish_each-eq :
      (reqs : List IngestRequest) (s : State B)
      → ((publish_each env svc reqs s).0
          ≡ ids_or_error
              (publish_all svc (events env s.made reqs) s.buffer).0
              (events env s.made reqs))
        × ((publish_each env svc reqs s).1.buffer
            ≡ (publish_all svc (events env s.made reqs) s.buffer).1)
  unfolding publish_each
  publish_each-eq [] s = (refl, refl)
  publish_each-eq (req ∷ reqs) s =
      let event = make_event env s.made req in
      let s' : State B = record { buffer = (publish svc event s.buffer).1; made = suc s.made } in
      let ih = publish_each-eq reqs s' in
      elim (Option-cases (publish svc event s.buffer).0) [
        | inr (e, failed) ↦ rw failed (refl, refl)
        | inl sent ↦ rw sent (then_ids-eq event _ _ _ _ ih.0 ih.1)
      ]

-- The first item without a payload is at an index whose items before it all have one.
pub first_empty-none :
    (i : ℕ) (reqs : List IngestRequest) → All HasPayload reqs → first_empty i reqs ≡ none
unfolding first_empty
first_empty-none i [] h = refl
first_empty-none i (req ∷ reqs) (p, h) =
    ground (arith, eq_iff req.payload "", first_empty-none (suc i) reqs h)

pub first_empty-some :
    (i : ℕ) (reqs : List IngestRequest) → first_empty i reqs ≡ none → All HasPayload reqs
unfolding first_empty
first_empty-some i [] h = tt
first_empty-some i (req ∷ reqs) h = (
  ground (arith, eq_iff req.payload ""),
  first_empty-some (suc i) reqs (ground (arith, eq_iff req.payload "")),
)

module _ {B : Type 0} (env : Environment) (svc : IngestionService B) where
  -- A batch in which every item has a payload publishes one event for each item, in order, up to
  -- the first publication that fails: it returns their ids if none fails, and that error if one
  -- does, with the events before it left in the buffer.
  pub ingest_batch_exact :
      (req : IngestRequest) (reqs : List IngestRequest) (s : State B)
      → All HasPayload (req ∷ reqs)
      → let evs = events env s.made (req ∷ reqs) in
        ((ingest_batch env svc (req ∷ reqs) s).0
          ≡ ids_or_error (publish_all svc evs s.buffer).0 evs)
        × ((ingest_batch env svc (req ∷ reqs) s).1.buffer ≡ (publish_all svc evs s.buffer).1)
  unfolding ingest_batch
  ingest_batch_exact req reqs s h =
      rw (first_empty-none 0 (req ∷ reqs) h) (publish_each-eq env svc (req ∷ reqs) s)

  -- A batch that is empty or has an item without a payload fails and publishes nothing at all, not
  -- even the items before that one.
  pub ingest_batch_refused :
      (reqs : List IngestRequest) (s : State B)
      → (reqs ≡ []) ⊎ (¬ (All HasPayload reqs))
      → ((e : Error) × ((ingest_batch env svc reqs s).0 ≡ err e))
        × ((ingest_batch env svc reqs s).1 ≡ s)
  unfolding ingest_batch
  ingest_batch_refused [] s h = ((_, refl), refl)
  ingest_batch_refused (req ∷ reqs) s (inl h) = cc
  ingest_batch_refused (req ∷ reqs) s (inr bad) = elim (Option-cases (first_empty 0 (req ∷ reqs))) [
    | inl all ↦ absurd (bad (first_empty-some 0 (req ∷ reqs) all))
    | inr (i, found) ↦ rw found ((_, refl), refl)
  ]

-- No two events of the list have one id.
abbrev pub HasDistinctIds : List RawEvent → Type 0
HasDistinctIds [] = Unit
HasDistinctIds (e ∷ es) = All (λ f. e.event_id ≢ f.event_id) es × HasDistinctIds es

module _ (env : Environment) (unique : (i j : ℕ) → env.uuid i ≡ env.uuid j → i ≡ j) where
  differs :
      (n k : ℕ) (reqs : List IngestRequest)
      → n < k
      → All (λ f. ("evt_" +++ env.uuid n) ≢ f.event_id) (events env k reqs)
  differs n k [] lt = tt
  differs n k (req ∷ reqs) lt = (
    λ same. absurd (omega (arith, unique n k (append_cancel_left "evt_" _ _ same))),
    differs n (suc k) reqs (omega arith),
  )

  -- the ids, payloads, formats and sources of the events of a batch
  events_faithful :
      (n : ℕ) (reqs : List IngestRequest)
      → HasDistinctIds (events env n reqs)
        × (map (λ e. e.payload) (events env n reqs) ≡ map (λ r. r.payload) reqs)
        × (map (λ e. e.format) (events env n reqs) ≡ map (λ r. r.format) reqs)
        × (map (λ e. e.source) (events env n reqs) ≡ map (λ r. r.source) reqs)
  events_faithful n [] = (tt, refl, refl, refl)
  events_faithful n (req ∷ reqs) =
      let ih = events_faithful (suc n) reqs in
      ((differs n (suc n) reqs (omega arith), ih.0), cc (ih.1), cc (ih.2), cc (ih.3))

  -- What `IngestBatch` publishes and returns for a batch.
  pub record IsSentInOrder {B : Type 0} (svc : IngestionService B) (reqs : List IngestRequest)
      (s : State B) : Type 0 where
    pub published : List RawEvent
    pub distinct : HasDistinctIds published
    pub payloads : map (λ e. e.payload) published ≡ map (λ r. r.payload) reqs
    pub formats : map (λ e. e.format) published ≡ map (λ r. r.format) reqs
    pub sources : map (λ e. e.source) published ≡ map (λ r. r.source) reqs
    pub answer :
        (ingest_batch env svc reqs s).0
        ≡ ids_or_error (publish_all svc published s.buffer).0 published
    pub buffer : (ingest_batch env svc reqs s).1.buffer ≡ (publish_all svc published s.buffer).1

  -- If `uuid.New` never repeats itself and every item of a batch has a payload, the events that
  -- `IngestBatch` publishes, one after the other up to the first failure, have distinct ids, and
  -- the payloads, formats and sources of the items, unchanged and in the batch's order; if none
  -- fails, it returns just their ids.
  pub batch_events_faithful :
      {B : Type 0} (svc : IngestionService B) (req : IngestRequest) (reqs : List IngestRequest)
      (s : State B)
      → All HasPayload (req ∷ reqs)
      → IsSentInOrder svc (req ∷ reqs) s
  batch_events_faithful svc req reqs s given =
      let (answer, buffer) = ingest_batch_exact env svc req reqs s given in
      let (distinct, payloads, formats, sources) = events_faithful s.made (req ∷ reqs) in
      record {
        published = events env s.made (req ∷ reqs);
        distinct = distinct;
        payloads = payloads;
        formats = formats;
        sources = sources;
        answer = answer;
        buffer = buffer;
      }
