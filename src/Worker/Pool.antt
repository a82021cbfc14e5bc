-- ===== src/Worker/Pool.antt =====
-- The concurrent branch of `processMessages`: the loop that launches goroutines, the channel `sem`
-- that bounds them, and the wait group. `Context.after` does not enter: here the context may be
-- cancelled between any two steps.
pub mod Bound
pub mod Deadlock
pub mod Progress
use log_morph.Common.{ℕ, suc, ◌<◌, ◌≡◌, Bool, true, false}

-- Where the loop stands: before `ctx.Err()`, at the `select`, at `wg.Wait()`, or returned.
pub data Main : Type 0 where
  at_check at_select at_wait returned : Main

pub record Pool : Type 0 where
  pub main : Main
  pub cancelled : Bool
  -- the messages that the loop has not launched
  pub waiting : ℕ
  -- what lies in `sem`
  pub tokens : ℕ
  -- goroutines that process their message, goroutines at `<-sem`, and goroutines at `wg.Done()`
  pub active : ℕ
  pub leaving : ℕ
  pub exiting : ℕ
  -- launches that sent nothing to `sem`
  pub unticketed : ℕ

-- A step of the loop or of a goroutine. `break` in the `ctx.Done()` case leaves the `select`, not
-- the loop, so the launch below it is made without a token.
pub data Work (concurrency : ℕ) (p : Pool) : Pool → Type 0 where
  stop : p.main ≡ at_check → p.cancelled ≡ true → Work concurrency p (record p { main = at_wait })
  enter :
      (n : ℕ)
      → p.main ≡ at_check
      → p.cancelled ≡ false
      → p.waiting ≡ suc n
      → Work concurrency p (record p { main = at_select })
  all_launched :
      p.main ≡ at_check → p.waiting ≡ 0 → Work concurrency p (record p { main = at_wait })
  launch :
      (n : ℕ)
      → p.main ≡ at_select
      → p.waiting ≡ suc n
      → p.tokens < concurrency
      → Work concurrency p
          (record p { main = at_check; waiting = n; tokens = suc p.tokens; active = suc p.active })
  launch_on_done :
      (n : ℕ)
      → p.main ≡ at_select
      → p.waiting ≡ suc n
      → p.cancelled ≡ true
      → Work concurrency p (record p {
        main = at_check;
        waiting = n;
        active = suc p.active;
        unticketed = suc p.unticketed;
      })
  processed :
      (n : ℕ)
      → p.active ≡ suc n
      → Work concurrency p (record p { active = n; leaving = suc p.leaving })
  leave :
      (n t : ℕ)
      → p.leaving ≡ suc n
      → p.tokens ≡ suc t
      → Work concurrency p (record p { leaving = n; tokens = t; exiting = suc p.exiting })
  exit : (n : ℕ) → p.exiting ≡ suc n → Work concurrency p (record p { exiting = n })
  return :
      p.main ≡ at_wait
      → p.active ≡ 0
      → p.leaving ≡ 0
      → p.exiting ≡ 0
      → Work concurrency p (record p { main = returned })

pub data Step (concurrency : ℕ) (p : Pool) : Pool → Type 0 where
  work : {q : Pool} → Work concurrency p q → Step concurrency p q
  cancel : Step concurrency p (record p { cancelled = true })

pub data Reach (concurrency : ℕ) (p : Pool) : Pool → Type 0 where
  here : Reach concurrency p p
  next : {q r : Pool} → Reach concurrency p q → Step concurrency q r → Reach concurrency p r

-- the pool as a call with this many messages finds it
abbrev pub fresh : ℕ → Pool
fresh messages = record {
  main = at_check;
  cancelled = false;
  waiting = messages;
  tokens = 0;
  active = 0;
  leaving = 0;
  exiting = 0;
  unticketed = 0;
}
