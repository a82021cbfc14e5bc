-- ===== src/Ingestion/Responses.antt =====
-- What the ingestion API answers, and what it has published when it does.
use log_morph.Common.{
  ℕ, suc, String, ◌≡◌, ◌⊎◌, inl, inr, refl, ap, ◌∙◌, Option, none, some, List, [], ◌∷◌, Error,
  Result, ok, err, error_text, arith, ◌==◌, eq_iff, Bool-cases, Option-cases, All, length,
}
use log_morph.Models.{RawEvent}
use log_morph.Ingestion.{
  ingest_batch, IngestRequest, IngestionService, Environment, State, make_event, publish,
  first_empty, ingest, id_or_error,
}
use log_morph.Ingestion.Batches.{
  events, ids, ids_or_error, publish_all, HasPayload, first_empty-none, first_empty-some,
  ingest_batch_exact,
}
use log_morph.Ingestion.Handler.{
  status_bad_request, Response, accepted, batch_accepted, failed, handle_ingest,
  handle_ingest_batch, batch_answer, answer,
}

abbrev pub status_code : Response → ℕ
status_code (accepted code _) = code
status_code (batch_accepted code _) = code
status_code (failed code _) = code

-- A batch body that the API must refuse.
abbrev pub IsBadBatch : Result (List IngestRequest) → Type 0
IsBadBatch (err _) = Unit
IsBadBatch (ok reqs) = (reqs ≡ []) ⊎ (¬ (All HasPayload reqs))

abbrev pub IsBadRequest : Result IngestRequest → Type 0
IsBadRequest (err _) = Unit
IsBadRequest (ok req) = req.payload ≡ ""

-- The answer to a batch of well-formed items, given whether a publication failed.
abbrev pub batch_response : Option Error → List RawEvent → Response
batch_response none evs =
    batch_accepted 202 (record { status = "accepted"; count = length evs; event_ids = ids evs })
batch_response (some e) evs =
    failed 500 (record { status = "ingestion_error"; message = error_text e })

abbrev pub response : Option Error → RawEvent → Response
response none event = accepted 202 (record { event_id = event.event_id; status = "accepted" })
response (some e) event = failed 500 (record { status = "ingestion_error"; message = error_text e })

length-ids : (evs : List RawEvent) → length (ids evs) ≡ length evs
length-ids [] = refl
length-ids (e ∷ evs) = ap suc (length-ids evs)

module _ {B : Type 0} (env : Environment) (svc : IngestionService B) where
  batch_answer-eq :
      (o : Option Error) (evs : List RawEvent)
      → batch_answer env svc (ids_or_error o evs) ≡ batch_response o evs
  batch_answer-eq none evs = rw length-ids
  batch_answer-eq (some e) evs = refl

  -- POST /ingest/batch answers 400 and publishes nothing if the body does not decode, is empty or
  -- has an item without a payload.
  pub bad_batch_changes_nothing :
      (body : Result (List IngestRequest)) (s : State B)
      → IsBadBatch body
      → (status_code (handle_ingest_batch env svc body s).0 ≡ 400)
        × ((handle_ingest_batch env svc body s).1 ≡ s)
  unfolding handle_ingest_batch
  bad_batch_changes_nothing (err e) s bad = (refl, refl)
  bad_batch_changes_nothing (ok []) s bad = (refl, refl)
  bad_batch_changes_nothing (ok (req ∷ reqs)) s bad =
      elim (Option-cases (first_empty 0 (req ∷ reqs))) [
        | inl all ↦ ground (arith, first_empty-some 0 (req ∷ reqs) all)
        | inr (i, found) ↦ rw found (refl, refl)
      ]

  -- POST /ingest/batch of one or more items that all have a payload publishes one event for each
  -- in order. It answers 202 with as many ids as items, in their order, if every publication
  -- succeeds, and 500 with the error of the first that fails.
  pub good_batch_response :
      (req : IngestRequest) (reqs : List IngestRequest) (s : State B)
      → All HasPayload (req ∷ reqs)
      → let evs = events env s.made (req ∷ reqs) in
        let sent = publish_all svc evs s.buffer in
        ((handle_ingest_batch env svc (ok (req ∷ reqs)) s).0 ≡ batch_response sent.0 evs)
        × ((handle_ingest_batch env svc (ok (req ∷ reqs)) s).1.buffer ≡ sent.1)
  unfolding handle_ingest_batch
  good_batch_response req reqs s h =
      let (result, buffer) = ingest_batch_exact env svc req reqs s h in
      rw (first_empty-none 0 (req ∷ reqs) h)
        (ap (batch_answer env svc) result ∙ batch_answer-eq _ _, buffer)

  answered_202 :
      (r : Result (List String))
      → status_code (batch_answer env svc r) ≡ 202
      → (ids : List String) × (r ≡ ok ids)
  answered_202 (ok ids) h = (ids, refl)
  answered_202 (err e) h = absurd (ground (arith, h))

  -- A batch that is answered with 202 is one that `IngestBatch` has accepted.
  pub accepted_batch :
      (req : IngestRequest) (reqs : List IngestRequest) (s : State B)
      → status_code (handle_ingest_batch env svc (ok (req ∷ reqs)) s).0 ≡ 202
      → (ids : List String) × ((ingest_batch env svc (req ∷ reqs) s).0 ≡ ok ids)
        × ((handle_ingest_batch env svc (ok (req ∷ reqs)) s).1
            ≡ (ingest_batch env svc (req ∷ reqs) s).1)
  unfolding handle_ingest_batch
  accepted_batch req reqs s h = elim (Option-cases (first_empty 0 (req ∷ reqs))) [
    | inl all ↦ let (ids, done) = answered_202 _ (rw all at h) in (ids, done, rw all refl)
    | inr (i, found) ↦ absurd (not_202 (rw found at h))
  ]
    where
      not_202 : status_bad_request ≡ 202 → ⊥
      not_202 same = omega arith

  -- POST /ingest answers 400 and publishes nothing if the body does not decode or has no payload.
  pub bad_request_changes_nothing :
      (body : Result IngestRequest) (s : State B)
      → IsBadRequest body
      → (status_code (handle_ingest env svc body s).0 ≡ 400)
        × ((handle_ingest env svc body s).1 ≡ s)
  unfolding handle_ingest
  bad_request_changes_nothing (err e) s bad = (refl, refl)
  bad_request_changes_nothing (ok req) s bad = rw ((eq_iff req.payload "").1 bad) (refl, refl)

  answered :
      (o : Option Error) (event : RawEvent)
      → answer env svc (id_or_error env svc event o) ≡ response o event
  answered none event = refl
  answered (some e) event = refl

  -- POST /ingest of an item with a payload publishes one event, and answers 202 with its id if the
  -- publication succeeds and 500 with the error if not.
  pub good_request_response :
      (req : IngestRequest) (s : State B)
      → HasPayload req
      → let event = make_event env s.made req in
        let sent = publish svc event s.buffer in
        ((handle_ingest env svc (ok req) s).0 ≡ response sent.0 event)
        × ((handle_ingest env svc (ok req) s).1.buffer ≡ sent.1)
  unfolding handle_ingest ingest
  good_request_response req s has = elim (Bool-cases (req.payload == "")) [
    | inl empty ↦ absurd (has ((eq_iff req.payload "").0 empty))
    | inr given ↦ rw given (answered _ _, refl)
  ]
