-- ===== src/Worker/Pool/Deadlock.antt =====
-- A launch in the `ctx.Done()` case of the `select`, and what becomes of the call.
use log_morph.Common.{ℕ, suc, ◌<◌, ◌≢◌, true, arith, refl}
use log_morph.Worker.Pool.{
  Pool, Work, Reach, at_check, returned, stop, enter, all_launched, launch, launch_on_done,
  processed, leave, exit, return, work, cancel, here, next, fresh,
}
use log_morph.Worker.Pool.Bound.{IsCounted, Reach-IsCounted, fresh-IsCounted}

module _ (concurrency : ℕ) where
  work-unticketed : {p q : Pool} → Work concurrency p q → 0 < p.unticketed → 0 < q.unticketed
  work-unticketed (stop m c) h = h
  work-unticketed (enter n m c w) h = h
  work-unticketed (all_launched m w) h = h
  work-unticketed (launch n m w t) h = h
  work-unticketed (launch_on_done n m w c) h = omega arith
  work-unticketed (processed n a) h = h
  work-unticketed (leave n t l k) h = h
  work-unticketed (exit n e) h = h
  work-unticketed (return m a l e) h = h

  reach-unticketed : {p q : Pool} → 0 < p.unticketed → Reach concurrency p q → 0 < q.unticketed
  reach-unticketed h here = h
  reach-unticketed h (next r (work s)) = work-unticketed s (reach-unticketed h r)
  reach-unticketed h (next r cancel) = reach-unticketed h r

  -- Once a goroutine was launched without a token, the call never returns, whatever the goroutines
  -- do and however long one waits.
  unticketed_never_returns :
      {p q : Pool}
      → IsCounted concurrency p
      → 0 < p.unticketed
      → Reach concurrency p q
      → q.main ≢ returned
  unticketed_never_returns counted launched later back =
      let h = Reach-IsCounted concurrency counted later in
      omega (arith, h.tickets, h.all_left back, reach-unticketed launched later)

  -- the loop has passed its `ctx.Err()` test when the context is cancelled, and the `select` takes
  -- the `ctx.Done()` case
  abbrev hung : ℕ → Pool
  hung n = record {
    main = at_check;
    cancelled = true;
    waiting = n;
    tokens = 0;
    active = 1;
    leaving = 0;
    exiting = 0;
    unticketed = 1;
  }

  reach-hung : (n : ℕ) → Reach concurrency (fresh (suc n)) (hung n)
  reach-hung n =
      next (next (next here (work (enter n refl refl refl))) cancel)
        (work (launch_on_done n refl refl refl))

  -- Every concurrent call with a message can be cancelled at a moment after which it never returns:
  -- a state is reachable from which no steps at all lead to the return.
  pub cancelled_call_can_hang :
      (n : ℕ)
      → (p : Pool) × Reach concurrency (fresh (suc n)) p
        × ((q : Pool) → Reach concurrency p q → q.main ≢ returned)
  cancelled_call_can_hang n = (
    hung n,
    reach-hung n,
    λ q later.
        unticketed_never_returns
          (Reach-IsCounted concurrency (fresh-IsCounted concurrency (suc n)) (reach-hung n))
          (omega arith) later,
  )
