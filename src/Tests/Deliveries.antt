-- ===== src/Tests/Deliveries.antt =====
-- Deliveries of one message to a worker with the in-memory stores.
use log_morph.Common.{String, ◌≡◌, refl, true, none, some, [], ◌∷◌, Result, ok, err, wrap, message}
use log_morph.Common.Text.{trim_space, to_lower}
use log_morph.Normalization.{normalize}
use log_morph.Detection.Drift.{analyze}
use log_morph.Idempotency.{
  IdempotencyStore, Memory, memory_store, memory_is_done, memory_try_claim, memory_mark_done,
  memory_release,
}
use log_morph.Idempotency.Lawful.{memory_store-IsLawful}
use log_morph.Storage as Raws
use log_morph.Storage.{memory_put}
use log_morph.Worker.{Worker, World, new_worker}
use log_morph.Worker.Pipeline.{PipelineResult, process_single_event}
use log_morph.Worker.Message.{process_message}
use log_morph.Worker.Message.Delivery.{
  IsRetriable, IsDelivered, acked, guarded, guarded_run, failed-IsRetriable, succeeded-IsDelivered,
  redelivery_only_acks,
}
use log_morph.Common.GoMap.{get, put, delete}
use log_morph.Models.{stable}
use log_morph.Storage.{memory_raw_store}
use log_morph.Worker.Pipeline.Frame.{with_raw_store, process_ignores_archive}
use log_morph.Worker.Concurrent.{run_moves, begin}
use log_morph.Worker.Concurrent.Agreement.{
  uninterrupted, is_ok, checked_run, told, process_message-eq-moves,
}
use log_morph.Tests.Fixtures.{
  Stream, sample_parsed, environment, make_worker, good_engine, bad_engine, sample_message, start,
}

abbrev id : String
id = "evt_1"

abbrev good : Worker Stream Memory Raws.Memory
good = make_worker good_engine

abbrev bad : Worker Stream Memory Raws.Memory
bad = make_worker bad_engine

abbrev started :
    World Stream Memory Raws.Memory
    → Worker Stream Memory Raws.Memory
    → Result PipelineResult × World Stream Memory Raws.Memory
started s w = guarded_run environment w memory_store memory_store-IsLawful sample_message s

-- Everything that a run of a worker computes with.
computes : Unit {0}
unfolding process_single_event process_message new_worker normalize analyze trim_space to_lower
    memory_try_claim memory_is_done memory_mark_done memory_release memory_put get put delete
computes = tt

-- what the engine's good run returns
abbrev result : PipelineResult
result = record {
  event_id = "evt_1";
  universal_event = record {
    event_id = "evt_1";
    schema_version = "1.0";
    timestamp = "2026-01-02T03:04:05Z";
    source = sample_parsed.source;
    event = sample_parsed.event;
    network = none;
    user = none;
    raw = record { format = "json"; message = "{}" };
    metadata = record { parser_version = "1.0"; ingested_at = "2026-01-02T03:04:06Z" };
  };
  valid = true;
  errors = [];
  drift = record {
    status = stable;
    confidence = 95;
    message = "Payload matches established json parser contract";
    suggested_action = "route_to_parser";
  };
}

good_runs : (started start good).0 ≡ ok result
unfolding computes
good_runs = refl

bad_fails :
    (started start bad).0
    ≡ err (wrap "parsing failed" (message "no parser registered for format: unknown"))
unfolding computes
bad_fails = refl

succeeded-IsDelivered_example :
    IsDelivered memory_store-IsLawful id
      (acked good sample_message start.buffer)
      start
      (process_message environment (guarded good memory_store) sample_message start).1
unfolding get
succeeded-IsDelivered_example =
    succeeded-IsDelivered environment good memory_store memory_store-IsLawful sample_message start
      refl refl {r = result} good_runs

failed-IsRetriable_example :
    IsRetriable memory_store-IsLawful id start
      (process_message environment (guarded bad memory_store) sample_message start).1
unfolding get
failed-IsRetriable_example =
    failed-IsRetriable environment bad memory_store memory_store-IsLawful sample_message start refl
      refl bad_fails

redelivery_only_acks_example :
    let t = (process_message environment (guarded good memory_store) sample_message start).1 in
    (process_message environment (guarded good memory_store) sample_message t).1
    ≡ record t { buffer = acked good sample_message (acked good sample_message start.buffer) }
unfolding get
redelivery_only_acks_example =
    redelivery_only_acks environment good memory_store memory_store-IsLawful sample_message start
      refl refl result good_runs

-- worlds in which another worker has finished the event, and holds it
abbrev after_other : World Stream Memory Raws.Memory
after_other = record start { idem = record { processing = []; done = ("evt_1", true) ∷ [] } }

abbrev during_other : World Stream Memory Raws.Memory
during_other = record start { idem = record { processing = ("evt_1", true) ∷ []; done = [] } }

-- a store that cannot be reached
abbrev unreachable : IdempotencyStore Memory
unreachable = record {
  is_done = λ id m. (err (message "connection refused"), m);
  try_claim_processing = λ id ttl m. (err (message "connection refused"), m);
  release_processing = λ id m. (some (message "connection refused"), m);
  mark_done = λ id ttl m. (some (message "connection refused"), m);
}

process_message-eq-moves_example :
    let t = (process_message environment (guarded good unreachable) sample_message start).1 in
    let m =
      run_moves unreachable good.lock_ttl good.done_ttl
        (λ _. "evt_1")
        (begin start.idem)
        (uninterrupted (is_ok (checked_run environment good unreachable sample_message start).0)) in
    (t.idem ≡ m.idem) × (t.buffer ≡ told environment good unreachable sample_message start m.acks)
process_message-eq-moves_example =
    process_message-eq-moves environment good unreachable sample_message start

process_ignores_archive_example :
    (process_single_event environment (with_raw_store good none) sample_message.event start).0
    ≡ (process_single_event environment
        (with_raw_store good (some memory_raw_store))
        sample_message.event
        after_other).0
process_ignores_archive_example =
    process_ignores_archive environment good none (some memory_raw_store) sample_message.event start
      after_other refl refl

-- A delivery that fails leaves the message pending; one that succeeds marks and acknowledges it.
delivery_tests :
    ((process_message environment good sample_message start).1.buffer.acknowledged ≡ "7-0" ∷ [])
    × ((process_message environment good sample_message start).1.idem
        ≡ record { processing = []; done = ("evt_1", true) ∷ [] })
    × ((process_message environment bad sample_message start).1.buffer.acknowledged ≡ [])
    × ((process_message environment bad sample_message start).1.idem
        ≡ record { processing = []; done = [] })
unfolding computes
delivery_tests = (refl, refl, refl, refl)
