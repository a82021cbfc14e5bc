-- ===== src/Worker/Loop.antt =====
-- `Start` and `processMessages`. The concurrent branch of `processMessages` (`Worker.Pool`,
-- `Worker.Concurrent`) depends on the scheduler: here it is a parameter, `parallel`, which answers
-- `none` for a call that never returns. `Start` then answers `none` as well.
pub mod Order
pub mod Acked
pub mod Invariant
pub mod Returns
pub mod Termination
use log_morph.Common.{
  ℕ, suc, zero, ◌+◌, ◌*◌, ◌/◌, Bool, true, false, Option, none, some, List, [], ◌∷◌, Error, wrap,
  Result, ok, err, ltb, if◌then◌else◌,
}
use log_morph.Common.Integer.{ℤ, pos, negsuc, is_positive, is_above}
use log_morph.Context.{poll}
use log_morph.Buffer.{RawMessage}
use log_morph.Worker.{Worker, World, Environment, second}
use log_morph.Worker.Action.{Action, pure, ◌>>=◌, ◌>>◌, on_buffer, on_ctx}
use log_morph.Worker.Message.{process_message}

-- `nextClaimAt`, and how often the loop has read the clock, which counts nanoseconds
pub record Timer : Type 0 where
  pub next_claim_at : ℕ
  pub readings : ℕ

-- how a round of the loop ends
pub data Round : Type 0 where
  stopped : Round
  again : Timer → Round
  -- a call of `processMessages` has not returned
  stuck : Round

-- `claimIdleTime / 2`, which is read for a positive time alone
abbrev pub half : ℤ → ℕ
half (pos n) = n / 2
half (negsuc n) = 0

module _ {B I R : Type 0} (env : Environment) (w : Worker B I R) where
  abbrev unless_cancelled :
      Option Error → World B I R → Unit {0} × World B I R → Unit {0} × World B I R
  unless_cancelled (some _) s rest = (tt, s)
  unless_cancelled none s rest = rest

  -- the sequential branch of `processMessages`
  unfoldable pub process_each : List RawMessage → Action B I R (Unit {0})
  process_each [] s = (tt, s)
  process_each (msg ∷ msgs) s =
      let (cancelled, s') = on_ctx poll s in
      let rest = process_each msgs (process_message env w msg s').1 in
      unless_cancelled cancelled s' rest

  module _ (ticks : ℕ → ℕ) (parallel : List RawMessage → Action B I R (Option (Unit {0}))) where
    abbrev sequential : List RawMessage → Action B I R (Option (Unit {0}))
    sequential msgs = do process_each msgs; pure (some tt)

    unfoldable pub process_messages : List RawMessage → Action B I R (Option (Unit {0}))
    unfolding process_each
    process_messages [] = pure (some tt)
    process_messages (msg ∷ msgs) =
        if is_above w.concurrency 1 then parallel (msg ∷ msgs) else sequential (msg ∷ msgs)

    -- An error of `ClaimPending` is only logged.
    unfoldable pub process_claimed : Result (List RawMessage) → Action B I R (Option (Unit {0}))
    unfolding process_messages
    process_claimed (err _) = pure (some tt)
    process_claimed (ok pending) = process_messages pending

    abbrev pub claim_pending : B → Result (List RawMessage) × B
    claim_pending =
        w.buffer.claim_pending w.stream_name w.group_name w.consumer_name w.claim_idle_time
          w.batch_size

    abbrev pub read_group : B → Result (List RawMessage) × B
    read_group =
        w.buffer.read_group w.stream_name w.group_name w.consumer_name w.batch_size
          (pos (2 * second))

    abbrev pub if_returned : {A : Type 0} → A → Option (Unit {0}) → Option A
    if_returned a none = none
    if_returned a (some _) = some a

    abbrev pub claimed_timer : Timer → Timer
    claimed_timer t = record {
      next_claim_at = ticks (suc t.readings) + half w.claim_idle_time;
      readings = suc (suc t.readings);
    }

    -- after `time.Now().After(nextClaimAt)`
    unfoldable pub reclaim_if : Bool → Timer → Action B I R (Option Timer)
    unfolding process_claimed
    reclaim_if false t = pure (some (record t { readings = suc t.readings }))
    reclaim_if true t = do
      pending ← on_buffer claim_pending
      back ← process_claimed pending
      pure (if_returned (claimed_timer t) back)

    -- the crash recovery of a round
    unfoldable pub reclaim_when : Bool → Timer → Action B I R (Option Timer)
    unfolding reclaim_if
    reclaim_when false t = pure (some t)
    reclaim_when true t = reclaim_if (ltb t.next_claim_at (ticks t.readings)) t

    abbrev round_unless : Option Error → Timer → Round
    round_unless (some _) t = stopped
    round_unless none t = again t

    abbrev round_if : Option Timer → Round
    round_if none = stuck
    round_if (some t) = again t

    -- what follows `ReadGroup`
    unfoldable pub after_read : Timer → Result (List RawMessage) → Action B I R Round
    unfolding process_messages
    after_read t (ok messages) = do
      back ← process_messages messages
      pure (round_if (if_returned t back))
    after_read t (err _) = do cancelled ← on_ctx poll; pure (round_unless cancelled t)

    -- what follows the crash recovery
    unfoldable pub after_reclaim : Option Timer → Action B I R Round
    unfolding after_read
    after_reclaim none = pure stuck
    after_reclaim (some t) = do messages ← on_buffer read_group; after_read t messages

    -- what follows the first `select`
    unfoldable pub after_select : Timer → Option Error → Action B I R Round
    unfolding reclaim_when after_reclaim
    after_select t (some _) = pure stopped
    after_select t none = do t' ← reclaim_when (is_positive w.claim_idle_time) t; after_reclaim t'

    -- one round of the loop
    unfoldable pub round : Timer → Action B I R Round
    unfolding after_select
    round t = do cancelled ← on_ctx poll; after_select t cancelled

    abbrev proceed :
        (Timer → Action B I R (Option (Unit {0}))) → Round → Action B I R (Option (Unit {0}))
    proceed go stopped = pure (some tt)
    proceed go stuck = pure none
    proceed go (again t) = go t

    -- at most `fuel` rounds; `none` when they are not enough, or when a round does not end
    unfoldable pub loop : ℕ → Timer → Action B I R (Option (Unit {0}))
    unfolding round
    loop zero t = pure none
    loop (suc fuel) t = do r ← round t; proceed (loop fuel) r

    -- the error that `Start` returns, if the loop has ended
    abbrev nil_error : Option (Unit {0}) → Option (Option Error)
    nil_error none = none
    nil_error (some _) = some none

    abbrev first_timer : Timer
    first_timer =
        if is_positive w.claim_idle_time
        then record { next_claim_at = ticks 0 + half w.claim_idle_time; readings = 1 }
        else record { next_claim_at = 0; readings = 0 }

    unfoldable pub after_group : ℕ → Option Error → Action B I R (Option (Option Error))
    unfolding loop
    after_group fuel (some e) = pure (some (some (wrap "failed to ensure consumer group" e)))
    after_group fuel none = do ended ← loop fuel first_timer; pure (nil_error ended)

    -- `Start`
    unfoldable pub start : ℕ → Action B I R (Option (Option Error))
    unfolding after_group
    start fuel = do
      failed ← on_buffer (w.buffer.ensure_group w.stream_name w.group_name)
      after_group fuel failed
