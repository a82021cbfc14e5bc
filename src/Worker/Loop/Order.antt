-- ===== src/Worker/Loop/Order.antt =====
-- What the sequential branch of `processMessages` processes, and in which order.
use log_morph.Common.{
  ℕ, zero, suc, ◌≡◌, refl, ◌⊎◌, inl, inr, false, Option, none, some, List, [], ◌∷◌, ◌++◌, ap,
}
use log_morph.Common.Integer.{is_above}
use log_morph.Context.{Context, poll, canceled}
use log_morph.Buffer.{RawMessage}
use log_morph.Worker.{Worker, World, Environment}
use log_morph.Worker.Message.{process_message}
use log_morph.Worker.Action.{Action}
use log_morph.Worker.Loop.{process_each, process_messages}

-- the world after `ctx.Err()`
abbrev pub polled : {B I R : Type 0} → World B I R → World B I R
polled s = record s { ctx = (poll s.ctx).1 }

-- one message after another, the context read before each
abbrev pub in_turn :
    {B I R : Type 0} → Environment → Worker B I R → List RawMessage → World B I R → World B I R
in_turn env w [] s = s
in_turn env w (msg ∷ msgs) s = in_turn env w msgs (process_message env w msg (polled s)).1

module _ {B I R : Type 0} (env : Environment) (w : Worker B I R) where
  -- The messages are `done ++ rest`: those of `done` were processed, and either that is all of
  -- them or the context was then cancelled.
  pub record IsPrefix (msgs : List RawMessage) (s t : World B I R) : Type 0 where
    pub done : List RawMessage
    pub rest : List RawMessage
    pub split : msgs ≡ done ++ rest
    pub ended :
        ((rest ≡ []) × (t ≡ in_turn env w done s))
        ⊎ (((poll (in_turn env w done s).ctx).0 ≡ some canceled)
            × (t ≡ polled (in_turn env w done s)))

  abbrev nothing_left : (s : World B I R) → IsPrefix [] s s
  nothing_left s = record { done = []; rest = []; split = refl; ended = inl (refl, refl) }

  abbrev cut :
      (msgs : List RawMessage) (s : World B I R)
      → (poll s.ctx).0 ≡ some canceled
      → IsPrefix msgs s (polled s)
  cut msgs s h = record { done = []; rest = msgs; split = refl; ended = inr (h, refl) }

  abbrev one_more :
      (msg : RawMessage) (msgs : List RawMessage) (s t : World B I R)
      → IsPrefix msgs (process_message env w msg (polled s)).1 t
      → IsPrefix (msg ∷ msgs) s t
  one_more msg msgs s t p = record {
    done = msg ∷ p.done;
    rest = p.rest;
    split = ap (◌∷◌ msg) p.split;
    ended = p.ended;
  }

  poll_error : (c : Context) → ((poll c).0 ≡ none) ⊎ ((poll c).0 ≡ some canceled)
  poll_error Context.background = inl refl
  poll_error (Context.after zero) = inr refl
  poll_error (Context.after (suc n)) = inl refl

  process_each-IsPrefix :
      (msgs : List RawMessage) (s : World B I R) → IsPrefix msgs s (process_each env w msgs s).1
  unfolding process_each
  process_each-IsPrefix [] s = nothing_left s
  process_each-IsPrefix (msg ∷ msgs) s = elim (poll_error s.ctx) [
    | inl live ↦ rw live (one_more msg msgs s _ (process_each-IsPrefix msgs _))
    | inr cancelled ↦ rw cancelled (cut (msg ∷ msgs) s cancelled)
  ]

  -- With a concurrency of 1 or less, `processMessages` processes a prefix of the messages, in
  -- order, the context read before each; it leaves a rest only once the context was cancelled.
  pub process_messages-IsPrefix :
      (ticks : ℕ → ℕ) (parallel : List RawMessage → Action B I R (Option (Unit {0})))
      (msgs : List RawMessage) (s : World B I R)
      → is_above w.concurrency 1 ≡ false
      → IsPrefix msgs s (process_messages env w ticks parallel msgs s).1
  unfolding process_messages
  process_messages-IsPrefix ticks parallel [] s h = nothing_left s
  process_messages-IsPrefix ticks parallel (msg ∷ msgs) s h =
      rw h (process_each-IsPrefix (msg ∷ msgs) s)
