-- ===== src/Context.antt =====
-- A `context.Context` as the program sees it: it may be cancelled from outside at any time, and a
-- cancelled context stays so. `after n` is cancelled once it has been polled n more times.
use log_morph.Common.{ℕ, zero, suc, ◌≡◌, ◌≤◌, Option, none, some, Error, message, arith}

pub data Context : Type 0 where
  background : Context
  after : ℕ → Context

abbrev pub canceled : Error
canceled = message "context canceled"

-- `ctx.Err()`, and the context that later polls see
abbrev pub poll : Context → Option Error × Context
poll background = (none, background)
poll (after zero) = (some canceled, after zero)
poll (after (suc n)) = (none, after n)

-- `IsNoLater c d`: d is cancelled at least as soon as c.
abbrev pub IsNoLater : Context → Context → Type 0
IsNoLater background d = Unit
IsNoLater (after n) background = ⊥
IsNoLater (after n) (after m) = m ≤ n

pub IsNoLater-refl : (c : Context) → IsNoLater c c
IsNoLater-refl background = tt
IsNoLater-refl (after n) = omega arith

pub IsNoLater-trans : (c d e : Context) → IsNoLater c d → IsNoLater d e → IsNoLater c e
IsNoLater-trans background d e p q = tt
IsNoLater-trans (after n) (after m) (after k) p q = omega arith
IsNoLater-trans (after n) (after m) background p q = q
IsNoLater-trans (after n) background e p q = absurd p

pub poll-IsNoLater : (c : Context) → IsNoLater c (poll c).1
poll-IsNoLater background = tt
poll-IsNoLater (after zero) = omega arith
poll-IsNoLater (after (suc n)) = omega arith

pub IsNoLater-from : (c d e : Context) → c ≡ d → IsNoLater d e → IsNoLater c e
IsNoLater-from c d e p q = rw p q
