-- ===== src/Worker/Loop/Invariant.antt =====
-- What the polls, the buffer's calls and the processing of a message keep, the run of `Start` keeps.
use log_morph.Common.{
  ℕ, zero, suc, ◌≡◌, Option, none, some, List, [], ◌∷◌, All, Result, ok, err, Error, Bool, true,
  false, Bool-cases, inl, inr,
}
use log_morph.Common.Integer.{is_above, is_positive}
use log_morph.Buffer.{RawMessage}
use log_morph.Worker.{Worker, World, Environment}
use log_morph.Worker.Action.{Action}
use log_morph.Worker.Message.{process_message}
use log_morph.Worker.Loop.{
  Timer, Round, stopped, again, stuck, after_reclaim, process_each, process_messages,
  process_claimed, reclaim_if, reclaim_when, after_read, after_select, round, loop, proceed,
  unless_cancelled, after_group, start, claim_pending, read_group,
}
use log_morph.Worker.Loop.Order.{polled}

-- all the messages of an answer
abbrev pub AllOf : (RawMessage → Type 0) → Result (List RawMessage) → Type 0
AllOf Q (ok msgs) = All Q msgs
AllOf Q (err _) = Unit

module _ {B I R : Type 0} (env : Environment) (w : Worker B I R)
    (parallel : List RawMessage → Action B I R (Option (Unit {0}))) where
  -- the world with this state of the buffer
  abbrev pub rebuffered : World B I R → B → World B I R
  rebuffered s b = record s { buffer = b }

  -- P is kept by all that the loop calls; the messages that the buffer delivers have Q. The
  -- concurrent branch counts only where the loop takes it.
  pub record IsKept (P : World B I R → Type 0) (Q : RawMessage → Type 0) : Type 0 where
    pub polling : (s : World B I R) → P s → P (polled s)
    pub processing :
        (msg : RawMessage) (s : World B I R) → Q msg → P s → P (process_message env w msg s).1
    pub branch :
        (msgs : List RawMessage) (s : World B I R)
        → is_above w.concurrency 1 ≡ true
        → All Q msgs
        → P s
        → P (parallel msgs s).1
    pub ensuring :
        (s : World B I R)
        → P s
        → P (rebuffered s (w.buffer.ensure_group w.stream_name w.group_name s.buffer).1)
    pub reading :
        (s : World B I R) → P s → P (rebuffered s (read_group env w (λ n. n) parallel s.buffer).1)
    pub claiming :
        (s : World B I R)
        → P s
        → P (rebuffered s (claim_pending env w (λ n. n) parallel s.buffer).1)
    pub read_all : (s : World B I R) → P s → AllOf Q (read_group env w (λ n. n) parallel s.buffer).0
    pub claimed_all :
        (s : World B I R) → P s → AllOf Q (claim_pending env w (λ n. n) parallel s.buffer).0

  module _ {P : World B I R → Type 0} {Q : RawMessage → Type 0} (kept : IsKept P Q) where
    unless_cancelled-keeps :
        (e : Option Error) (s : World B I R) (rest : Unit {0} × World B I R)
        → P s
        → P rest.1
        → P (unless_cancelled env w e s rest).1
    unless_cancelled-keeps none s rest p q = q
    unless_cancelled-keeps (some _) s rest p q = p

    pub process_each-keeps :
        (msgs : List RawMessage) (s : World B I R)
        → All Q msgs
        → P s
        → P (process_each env w msgs s).1
    unfolding process_each
    process_each-keeps [] s qs p = p
    process_each-keeps (msg ∷ msgs) s (q, qs) p =
        let t = polled s in
        unless_cancelled-keeps _ t _ (kept.polling s p)
          (process_each-keeps msgs _ qs (kept.processing msg t q (kept.polling s p)))

    module _ (ticks : ℕ → ℕ) where
      process_messages-keeps :
          (msgs : List RawMessage) (s : World B I R)
          → All Q msgs
          → P s
          → P (process_messages env w ticks parallel msgs s).1
      unfolding process_messages
      process_messages-keeps [] s qs p = p
      process_messages-keeps (msg ∷ msgs) s qs p = elim (Bool-cases (is_above w.concurrency 1)) [
        | inl many ↦ rw many (kept.branch (msg ∷ msgs) s many qs p)
        | inr one ↦ rw one (process_each-keeps (msg ∷ msgs) s qs p)
      ]

      process_claimed-keeps :
          (r : Result (List RawMessage)) (s : World B I R)
          → AllOf Q r
          → P s
          → P (process_claimed env w ticks parallel r s).1
      unfolding process_claimed
      process_claimed-keeps (ok msgs) s qs p = process_messages-keeps msgs s qs p
      process_claimed-keeps (err _) s qs p = p

      reclaim_if-keeps :
          (due : Bool) (t : Timer) (s : World B I R)
          → P s
          → P (reclaim_if env w ticks parallel due t s).1
      unfolding reclaim_if
      reclaim_if-keeps true t s p =
          process_claimed-keeps _ _ (kept.claimed_all s p) (kept.claiming s p)
      reclaim_if-keeps false t s p = p

      reclaim_when-keeps :
          (enabled : Bool) (t : Timer) (s : World B I R)
          → P s
          → P (reclaim_when env w ticks parallel enabled t s).1
      unfolding reclaim_when
      reclaim_when-keeps true t s p = reclaim_if-keeps _ t s p
      reclaim_when-keeps false t s p = p

      after_read-keeps :
          (t : Timer) (r : Result (List RawMessage)) (s : World B I R)
          → AllOf Q r
          → P s
          → P (after_read env w ticks parallel t r s).1
      unfolding after_read
      after_read-keeps t (ok msgs) s qs p = process_messages-keeps msgs s qs p
      after_read-keeps t (err _) s qs p = kept.polling s p

      after_reclaim-keeps :
          (t : Option Timer) (s : World B I R) → P s → P (after_reclaim env w ticks parallel t s).1
      unfolding after_reclaim
      after_reclaim-keeps none s p = p
      after_reclaim-keeps (some t) s p =
          after_read-keeps t _ _ (kept.read_all s p) (kept.reading s p)

      pub after_select-keeps :
          (t : Timer) (e : Option Error) (s : World B I R)
          → P s
          → P (after_select env w ticks parallel t e s).1
      unfolding after_select
      after_select-keeps t (some _) s p = p
      after_select-keeps t none s p =
          after_reclaim-keeps _ _ (reclaim_when-keeps (is_positive w.claim_idle_time) t s p)

      round-keeps : (t : Timer) (s : World B I R) → P s → P (round env w ticks parallel t s).1
      unfolding round
      round-keeps t s p = after_select-keeps t _ _ (kept.polling s p)

      proceed-keeps :
          (go : Timer → Action B I R (Option (Unit {0})))
          → ((t : Timer) (s : World B I R) → P s → P (go t s).1)
          → (r : Round) (s : World B I R) → P s
          → P (proceed env w ticks parallel go r s).1
      proceed-keeps go keep stopped s p = p
      proceed-keeps go keep stuck s p = p
      proceed-keeps go keep (again t) s p = keep t s p

      loop-keeps :
          (fuel : ℕ) (t : Timer) (s : World B I R) → P s → P (loop env w ticks parallel fuel t s).1
      unfolding loop
      loop-keeps zero t s p = p
      loop-keeps (suc fuel) t s p = proceed-keeps _ (loop-keeps fuel) _ _ (round-keeps t s p)

      after_group-keeps :
          (fuel : ℕ) (e : Option Error) (s : World B I R)
          → P s
          → P (after_group env w ticks parallel fuel e s).1
      unfolding after_group
      after_group-keeps fuel none s p = loop-keeps fuel _ s p
      after_group-keeps fuel (some _) s p = p

      pub start-keeps : (fuel : ℕ) (s : World B I R) → P s → P (start env w ticks parallel fuel s).1
      unfolding start
      start-keeps fuel s p = after_group-keeps fuel _ _ (kept.ensuring s p)
