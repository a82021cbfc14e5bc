-- ===== src/Worker/Loop/Returns.antt =====
-- A round of the loop ends, if each call of the concurrent branch that it makes returns.
use log_morph.Common.{
  ℕ, ◌≡◌, refl, Option, none, some, List, [], ◌∷◌, Result, ok, err, Error, Bool, true, false,
  Bool-cases, inl, inr, ap,
}
use log_morph.Common.Integer.{is_above, is_positive}
use log_morph.Buffer.{RawMessage}
use log_morph.Worker.{Worker, World, Environment}
use log_morph.Worker.Action.{Action}
use log_morph.Worker.Loop.{
  Timer, Round, stopped, again, stuck, process_messages, process_claimed, reclaim_if, reclaim_when,
  after_read, after_reclaim, after_select, if_returned, round_unless, read_group,
}

-- The call returns.
abbrev pub Returns : {B I R A : Type 0} → Action B I R (Option A) → World B I R → Type 0
Returns {A = A} m s = (a : A) × ((m s).0 ≡ some a)

abbrev pub IsOver : Round → Type 0
IsOver stopped = Unit
IsOver (again _) = Unit
IsOver stuck = ⊥

module _ {B I R : Type 0} (env : Environment) (w : Worker B I R) (ticks : ℕ → ℕ)
    (parallel : List RawMessage → Action B I R (Option (Unit {0})))
    (returning : is_above w.concurrency 1 ≡ true
      → (msgs : List RawMessage) (s : World B I R) → Returns (parallel msgs) s) where
  process_messages-Returns :
      (msgs : List RawMessage) (s : World B I R)
      → Returns (process_messages env w ticks parallel msgs) s
  unfolding process_messages
  process_messages-Returns [] s = (tt, refl)
  process_messages-Returns (msg ∷ msgs) s = elim (Bool-cases (is_above w.concurrency 1)) [
    | inl many ↦ rw many (returning many (msg ∷ msgs) s)
    | inr one ↦ rw one (tt, refl)
  ]

  process_claimed-Returns :
      (r : Result (List RawMessage)) (s : World B I R)
      → Returns (process_claimed env w ticks parallel r) s
  unfolding process_claimed
  process_claimed-Returns (ok msgs) s = process_messages-Returns msgs s
  process_claimed-Returns (err _) s = (tt, refl)

  reclaim_if-Returns :
      (due : Bool) (t : Timer) (s : World B I R) → Returns (reclaim_if env w ticks parallel due t) s
  unfolding reclaim_if
  reclaim_if-Returns false t s = (_, refl)
  reclaim_if-Returns true t s =
      let (_, back) = process_claimed-Returns _ _ in
      (_, ap (if_returned env w ticks parallel _) back)

  reclaim_when-Returns :
      (enabled : Bool) (t : Timer) (s : World B I R)
      → Returns (reclaim_when env w ticks parallel enabled t) s
  unfolding reclaim_when
  reclaim_when-Returns true t s = reclaim_if-Returns _ t s
  reclaim_when-Returns false t s = (_, refl)

  after_read-IsOver :
      (t : Timer) (r : Result (List RawMessage)) (s : World B I R)
      → IsOver (after_read env w ticks parallel t r s).0
  unfolding after_read
  after_read-IsOver t (ok msgs) s = let (_, back) = process_messages-Returns msgs s in rw back tt
  after_read-IsOver t (err _) s = unless_over _
    where
      unless_over : (e : Option Error) → IsOver (round_unless env w ticks parallel e t)
      unless_over none = tt
      unless_over (some _) = tt

  after_reclaim-IsOver :
      (t : Timer) (o : Option Timer) (s : World B I R)
      → o ≡ some t
      → IsOver (after_reclaim env w ticks parallel o s).0
  unfolding after_reclaim
  after_reclaim-IsOver t none s found = cc
  after_reclaim-IsOver t (some x) s found =
      let (r, b) = read_group env w ticks parallel s.buffer in
      after_read-IsOver x r (record s { buffer = b })

  pub after_select-IsOver :
      (t : Timer) (e : Option Error) (s : World B I R)
      → IsOver (after_select env w ticks parallel t e s).0
  unfolding after_select
  after_select-IsOver t (some _) s = tt
  after_select-IsOver t none s =
      let (x, back) = reclaim_when-Returns (is_positive w.claim_idle_time) t s in
      after_reclaim-IsOver x _ _ back
