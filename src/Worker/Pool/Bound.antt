-- ===== src/Worker/Pool/Bound.antt =====
-- How many goroutines hold a place in the pool, and how many tokens.
use log_morph.Common.{
  ℕ, suc, ◌+◌, ◌≤◌, ◌<◌, ◌≡◌, ◌⊎◌, inl, inr, Bool-cases, refl, true, false, arith,
}
use log_morph.Worker.Pool.{
  Pool, Work, Step, Reach, at_select, returned, stop, enter, all_launched, launch, launch_on_done,
  processed, leave, exit, return, work, cancel, here, next, fresh,
}

pub record IsCounted (concurrency : ℕ) (p : Pool) : Type 0 where
  -- each goroutine that has not left has a token in `sem`, but for those launched without one
  pub tickets : p.tokens + p.unticketed ≡ p.active + p.leaving
  pub capacity : p.tokens ≤ concurrency
  pub only_cancelled : p.cancelled ≡ false → p.unticketed ≡ 0
  -- after a launch without a token the loop only waits
  pub at_most_one : p.unticketed ≤ 1
  pub no_more : p.unticketed ≡ 1 → (p.main ≡ at_select → ⊥) × (p.cancelled ≡ true)
  pub selecting : p.main ≡ at_select → 0 < p.waiting
  pub all_left : p.main ≡ returned → p.active + p.leaving + p.exiting ≡ 0

module _ (concurrency : ℕ) where
  Work-IsCounted :
      {p q : Pool} → Work concurrency p q → IsCounted concurrency p → IsCounted concurrency q
  Work-IsCounted (stop m c) h = ground arith
  Work-IsCounted (enter n m c w) h = ground arith
  Work-IsCounted (all_launched m w) h = ground arith
  Work-IsCounted (launch n m w t) h = ground arith
  Work-IsCounted (launch_on_done n m w c) h = ground arith
  Work-IsCounted (processed n a) h = ground arith
  Work-IsCounted (leave n t l k) h = ground arith
  Work-IsCounted (exit n e) h = ground arith
  Work-IsCounted (return m a l e) h = ground arith

  Step-IsCounted :
      {p q : Pool} → Step concurrency p q → IsCounted concurrency p → IsCounted concurrency q
  Step-IsCounted (work s) h = Work-IsCounted s h
  Step-IsCounted cancel h = record {
    tickets = h.tickets;
    capacity = h.capacity;
    only_cancelled = λ c. cc;
    at_most_one = h.at_most_one;
    no_more = λ u. ((h.no_more u).0, refl);
    selecting = h.selecting;
    all_left = h.all_left;
  }

  pub Reach-IsCounted :
      {p q : Pool} → IsCounted concurrency p → Reach concurrency p q → IsCounted concurrency q
  Reach-IsCounted h here = h
  Reach-IsCounted h (next r s) = Step-IsCounted s (Reach-IsCounted h r)

  pub fresh-IsCounted : (messages : ℕ) → IsCounted concurrency (fresh messages)
  fresh-IsCounted messages = ground arith

  -- However the loop and the goroutines of a call interleave, at most `concurrency` goroutines
  -- are processing a message or have yet to take a token back from `sem` until the context is
  -- cancelled, and at most one more after that. Goroutines that are past `<-sem` do not count.
  pub pool_bound :
      (messages : ℕ) {p : Pool}
      → Reach concurrency (fresh messages) p
      → (p.active + p.leaving ≤ concurrency)
        ⊎ ((p.cancelled ≡ true) × (p.active + p.leaving ≤ suc concurrency))
  pool_bound messages {p} r =
      let h = Reach-IsCounted (fresh-IsCounted messages) r in
      elim (Bool-cases p.cancelled) [
        | inl c ↦ inr (c, omega (arith, h.tickets, h.capacity, h.at_most_one))
        | inr c ↦ inl (omega (arith, h.tickets, h.capacity, h.only_cancelled c))
      ]
