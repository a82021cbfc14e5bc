-- ===== src/Worker/Loop/Termination.antt =====
-- The loop of `Start` ends once the context is cancelled.
use log_morph.Common.{
  ℕ, zero, suc, ◌≡◌, refl, Option, none, some, List, [], ◌∷◌, All, Result, ok, err, true, ◌≤◌, wrap,
  Error, arith,
}
use mathlib.Core.Option.{map as map_option}
use log_morph.Common.Integer.{is_above}
use log_morph.Context.{Context, background, after, poll, IsNoLater, IsNoLater-trans, poll-IsNoLater}
use log_morph.Buffer.{RawMessage}
use log_morph.Worker.{Worker, World, Environment}
use log_morph.Worker.Action.{Action}
use log_morph.Worker.Pipeline.Cancellation.{KeepsContext}
use log_morph.Worker.Message.Cancellation.{process_message-IsNoLater}
use log_morph.Worker.Loop.Returns.{Returns, IsOver, after_select-IsOver}
use log_morph.Worker.Loop.Invariant.{AllOf, IsKept, after_select-keeps}
use log_morph.Worker.Loop.{
  Timer, Round, stopped, again, stuck, after_select, round, loop, proceed, after_group, start,
}

all_units : (xs : List RawMessage) → All (λ _. Unit {0}) xs
all_units [] = tt
all_units (_ ∷ xs) = (tt, all_units xs)

all_of : (r : Result (List RawMessage)) → AllOf (λ _. Unit) r
all_of (ok msgs) = all_units msgs
all_of (err _) = tt

module _ {B I R : Type 0} (env : Environment) (w : Worker B I R) (keeps : KeepsContext w) where
  module _ (ticks : ℕ → ℕ) (parallel : List RawMessage → Action B I R (Option (Unit {0})))
      (returning : is_above w.concurrency 1 ≡ true
        → (msgs : List RawMessage) (s : World B I R) → Returns (parallel msgs) s)
      (parallel_keeps : is_above w.concurrency 1 ≡ true
        → (msgs : List RawMessage) (s : World B I R)
        → IsNoLater s.ctx (parallel msgs s).1.ctx) where
    IsNoLater-IsKept : (c : Context) → IsKept env w parallel (λ s. IsNoLater c s.ctx) (λ _. Unit)
    IsNoLater-IsKept c = record {
      polling = λ s p. IsNoLater-trans c s.ctx _ p (poll-IsNoLater s.ctx);
      processing =
          λ msg s _ p. IsNoLater-trans c s.ctx _ p (process_message-IsNoLater env w keeps msg s);
      branch = λ msgs s many _ p. IsNoLater-trans c s.ctx _ p (parallel_keeps many msgs s);
      ensuring = λ s p. p;
      reading = λ s p. p;
      claiming = λ s p. p;
      read_all = λ s p. all_of _;
      claimed_all = λ s p. all_of _;
    }

    after_select-IsNoLater :
        (c : Context) (t : Timer) (s : World B I R)
        → IsNoLater c s.ctx
        → IsNoLater c (after_select env w ticks parallel t none s).1.ctx
    after_select-IsNoLater c t s p =
        after_select-keeps env w parallel (IsNoLater-IsKept c) ticks t none s p

    -- One poll less is left after a round that goes on.
    HasAdvanced : ℕ → Round → World B I R → Type 0
    HasAdvanced n stopped s = Unit
    HasAdvanced n stuck s = ⊥
    HasAdvanced zero (again t) s = ⊥
    HasAdvanced (suc n) (again t) s = IsNoLater (after n) s.ctx

    advanced :
        (n : ℕ) (r : Round) (s : World B I R)
        → IsOver r
        → IsNoLater (after n) s.ctx
        → HasAdvanced (suc n) r s
    unfolding HasAdvanced
    advanced n stopped s over p = tt
    advanced n (again t) s over p = p
    advanced n stuck s over p = over

    not_below : {m : ℕ} → suc m ≤ 0 → ⊥
    not_below p = omega arith

    round_from :
        (n : ℕ) (c : Context) (t : Timer) (s : World B I R)
        → IsNoLater (after n) c
        → HasAdvanced n
            (after_select env w ticks parallel t (poll c).0 (record s { ctx = (poll c).1 })).0
            (after_select env w ticks parallel t (poll c).0 (record s { ctx = (poll c).1 })).1
    unfolding HasAdvanced after_select
    round_from n background t s p = absurd p
    round_from n (after zero) t s p = tt
    round_from zero (after (suc m)) t s p = absurd (not_below p)
    round_from (suc n) (after (suc m)) t s p =
        advanced n _ _ (after_select-IsOver env w ticks parallel returning t none _)
          (after_select-IsNoLater (after n) t (record s { ctx = after m }) (omega arith))

    proceed_ends :
        (n : ℕ) (go : Timer → Action B I R (Option (Unit {0})))
        → ((t : Timer) (s : World B I R) → IsNoLater (after n) s.ctx → (go t s).0 ≡ some tt)
        → (r : Round) (s : World B I R) → HasAdvanced (suc n) r s
        → (proceed env w ticks parallel go r s).0 ≡ some tt
    unfolding HasAdvanced
    proceed_ends n go ends stopped s p = refl
    proceed_ends n go ends stuck s p = absurd p
    proceed_ends n go ends (again t) s p = ends t s p

    first_ends :
        (go : Timer → Action B I R (Option (Unit {0}))) (r : Round) (s : World B I R)
        → HasAdvanced zero r s
        → (proceed env w ticks parallel go r s).0 ≡ some tt
    unfolding HasAdvanced
    first_ends go stopped s p = refl
    first_ends go stuck s p = absurd p
    first_ends go (again t) s p = absurd p

    loop_ends :
        (n : ℕ) (t : Timer) (s : World B I R)
        → IsNoLater (after n) s.ctx
        → (loop env w ticks parallel (suc n) t s).0 ≡ some tt
    unfolding loop round
    loop_ends zero t s p = first_ends _ _ _ (round_from zero s.ctx t s p)
    loop_ends (suc n) t s p = proceed_ends n _ (loop_ends n) _ _ (round_from (suc n) s.ctx t s p)

    after_group_ends :
        (n : ℕ) (e : Option Error) (s : World B I R)
        → IsNoLater (after n) s.ctx
        → (after_group env w ticks parallel (suc n) e s).0
          ≡ some (map_option (wrap "failed to ensure consumer group") e)
    unfolding after_group
    after_group_ends n none s p = rw (loop_ends n _ s p)
    after_group_ends n (some e) s p = refl

    -- On a context that is cancelled after n more polls, `Start` returns within n + 1 rounds, and
    -- its error is nil unless `EnsureGroup` failed. Assumed are that the drift detector does not put
    -- off the cancellation and, where the concurrency is above 1, that every call of the concurrent
    -- branch returns and does not put it off either.
    pub start_returns :
        (n : ℕ) (s : World B I R)
        → IsNoLater (after n) s.ctx
        → (start env w ticks parallel (suc n) s).0
          ≡ some (
              map_option
                (wrap "failed to ensure consumer group")
                (w.buffer.ensure_group w.stream_name w.group_name s.buffer).0)
    unfolding start
    start_returns n s p = after_group_ends n _ _ p
