-- ===== src/Tests/Loops.antt =====
-- The loop of a worker over a buffer that delivers two messages and is then empty.
use log_morph.Common.{ℕ, ◌≡◌, refl, Option, none, some, List, [], ◌∷◌, Result, ok, arith}
use log_morph.Common.Integer.{pos, int64}
use log_morph.Common.Text.{ascii, trim_space, to_lower}
use log_morph.Common.GoMap.{get, put, delete}
use log_morph.Context.{after}
use log_morph.Detection.Drift.{analyze, analyze-IsNoLater}
use log_morph.Normalization.{normalize}
use log_morph.Buffer.{RawMessage}
use log_morph.Idempotency.{
  Memory, memory_is_done, memory_try_claim, memory_mark_done, memory_release,
}
use log_morph.Storage as Raws
use log_morph.Storage.{memory_put}
use log_morph.Worker.{Worker, World, new_worker}
use log_morph.Worker.Pipeline.{process_single_event}
use log_morph.Worker.Pipeline.Cancellation.{KeepsContext}
use log_morph.Worker.Message.{process_message}
use log_morph.Worker.Action.{Action, pure}
use log_morph.Worker.Loop.{process_each, process_messages, start}
use log_morph.Worker.Loop.Order.{IsPrefix, process_messages-IsPrefix}
use log_morph.Worker.Loop.Termination.{start_returns}
use log_morph.Tests.Fixtures.{
  Stream, no_stream, environment, make_worker, good_engine, sample_message, sample_event,
}
use log_morph.Tests.Fixtures as Fixtures

abbrev other_message : RawMessage
other_message = record { id = "8-0"; event = record sample_event { event_id = "evt_2" } }

-- `ReadGroup` answers with both messages until one has been acknowledged.
abbrev deliver : Stream → Result (List RawMessage)
deliver s = elim s.acknowledged [
  | [] ↦ ok (sample_message ∷ other_message ∷ [])
  | ◌∷◌ _ (_ → _) ↦ ok []
]

abbrev worker : Worker Stream Memory Raws.Memory
worker = record (make_worker good_engine) {
  concurrency = pos 1;
  buffer = record (make_worker good_engine).buffer {
    read_group = λ stream group consumer count block s. (deliver s, s);
  };
}

abbrev nobody : List RawMessage → Action Stream Memory Raws.Memory (Option (Unit {0}))
nobody msgs = pure (some tt)

abbrev at : ℕ → World Stream Memory Raws.Memory
at n = record Fixtures.start { ctx = after n }

computes : Unit {0}
unfolding process_single_event process_message new_worker normalize analyze trim_space to_lower
    memory_try_claim memory_is_done memory_mark_done memory_release memory_put get put delete
    process_each process_messages start int64
computes = tt

keeps : KeepsContext worker
unfolding computes
keeps = analyze-IsNoLater ascii

-- a context that is cancelled while the second message is processed, and one before it
both_acknowledged :
    (start environment worker (λ n. n) nobody 9 (at 8)).1.buffer.acknowledged ≡ "7-0" ∷ "8-0" ∷ []
unfolding computes
both_acknowledged = refl

one_acknowledged :
    (start environment worker (λ n. n) nobody 4 (at 3)).1.buffer.acknowledged ≡ "7-0" ∷ []
unfolding computes
one_acknowledged = refl

start_returns_example : (start environment worker (λ n. n) nobody 9 (at 8)).0 ≡ some none
unfolding computes
start_returns_example =
    start_returns environment worker keeps (λ n. n) nobody (λ many. cc) (λ many. cc) 8 (at 8)
      (omega arith)

process_messages-IsPrefix_example :
    IsPrefix environment worker
      (sample_message ∷ other_message ∷ [])
      (at 3)
      (process_messages environment worker
        (λ n. n)
        nobody
        (sample_message ∷ other_message ∷ [])
        (at 3)).1
unfolding computes
process_messages-IsPrefix_example =
    process_messages-IsPrefix environment worker (λ n. n) nobody
      (sample_message ∷ other_message ∷ []) (at 3) refl
