-- ===== src/Worker/Pool/Progress.antt =====
-- The pool ends, if no goroutine was launched without a token.
use log_morph.Common.{
  ℕ, zero, suc, ◌+◌, ◌*◌, ◌<◌, ◌≡◌, ◌≢◌, ◌⊎◌, inl, inr, arith, refl, ◌∙◌, Bool-cases, ℕ-cases,
}
use native.Mathlib.Decide.{dec_lt}
use log_morph.Worker.Pool.{
  Main, Pool, Work, Step, Reach, at_check, at_select, at_wait, returned, stop, enter, all_launched,
  launch, launch_on_done, processed, leave, exit, return, work, here, next, fresh,
}
use log_morph.Worker.Pool.Bound.{IsCounted, Reach-IsCounted, fresh-IsCounted}

abbrev stage : Main → ℕ
stage at_check = 3
stage at_select = 2
stage at_wait = 1
stage returned = 0

-- how many steps are left at most
abbrev pub remaining : Pool → ℕ
remaining p = 5 * p.waiting + stage p.main + 3 * p.active + 2 * p.leaving + p.exiting

returned? : (m : Main) → (m ≡ returned) ⊎ (m ≢ returned)
returned? returned = inl refl
returned? at_check = inr (cc)
returned? at_select = inr (cc)
returned? at_wait = inr (cc)

module _ (concurrency : ℕ) where
  before : {p q r : Pool} → Step concurrency p q → Reach concurrency q r → Reach concurrency p r
  before s here = next here s
  before s (next later t) = next (before s later) t

  -- Every step of the loop or of a goroutine, a launch without a token among them, brings the call
  -- nearer to its end.
  pub work_decreases : {p q : Pool} → Work concurrency p q → remaining q < remaining p
  work_decreases (stop m c) = ground arith
  work_decreases (enter n m c w) = ground arith
  work_decreases (all_launched m w) = ground arith
  work_decreases (launch n m w t) = ground arith
  work_decreases (launch_on_done n m w c) = ground arith
  work_decreases (processed n a) = ground arith
  work_decreases (leave n t l k) = ground arith
  work_decreases (exit n e) = ground arith
  work_decreases (return m a l e) = ground arith

  -- A step that launches nothing without a token.
  abbrev Advance : Pool → Type 0
  Advance p = (q : Pool) × Work concurrency p q × (q.unticketed ≡ p.unticketed)

  -- a goroutine that is left can move
  goroutine_moves :
      (p : Pool) → IsCounted concurrency p → p.unticketed ≡ 0 → 0 < p.active + p.leaving → Advance p
  goroutine_moves p h none busy = elim (ℕ-cases p.active) [
    | inr (n, e) ↦ (_, processed n e, refl)
    | inl idle ↦ elim (ℕ-cases p.leaving) [
      | inl gone ↦ absurd (omega arith)
      | inr (n, e) ↦ elim (ℕ-cases p.tokens) [
        | inl empty ↦ absurd (omega (arith, h.tickets))
        | inr (t, k) ↦ (_, leave n t e k, refl)
      ]
    ]
  ]

  at_check_moves : (p : Pool) → p.main ≡ at_check → Advance p
  at_check_moves p m = elim (Bool-cases p.cancelled) [
    | inl c ↦ (_, stop m c, refl)
    | inr c ↦ elim (ℕ-cases p.waiting) [
      | inl e ↦ (_, all_launched m e, refl)
      | inr (n, e) ↦ (_, enter n m c e, refl)
    ]
  ]

  at_select_moves :
      (p : Pool)
      → 0 < concurrency
      → IsCounted concurrency p
      → p.unticketed ≡ 0
      → p.main ≡ at_select
      → Advance p
  at_select_moves p room h none m = elim (ℕ-cases p.waiting) [
    | inl e ↦ absurd (omega (arith, h.selecting m))
    | inr (n, e) ↦ elim (dec_lt p.tokens concurrency) [
      | yes free ↦ (_, launch n m e free, refl)
      | no full ↦ goroutine_moves p h none (omega (arith, h.tickets, h.capacity))
    ]
  ]

  at_wait_moves :
      (p : Pool) → IsCounted concurrency p → p.unticketed ≡ 0 → p.main ≡ at_wait → Advance p
  at_wait_moves p h none m = elim (ℕ-cases (p.active + p.leaving)) [
    | inl idle ↦ elim (ℕ-cases p.exiting) [
      | inl gone ↦ (_, return m (omega arith) (omega arith) gone, refl)
      | inr (n, e) ↦ (_, exit n e, refl)
    ]
    | inr (n, busy) ↦ goroutine_moves p h none (omega arith)
  ]

  moves :
      (p : Pool) (m : Main)
      → p.main ≡ m
      → m ≢ returned
      → 0 < concurrency
      → IsCounted concurrency p
      → p.unticketed ≡ 0
      → Advance p
  moves p at_check e left room h none = at_check_moves p e
  moves p at_select e left room h none = at_select_moves p room h none e
  moves p at_wait e left room h none = at_wait_moves p h none e
  moves p returned e left room h none = absurd (left refl)

  -- A call whose launches all sent a token is never stuck: until it returns, the loop or a
  -- goroutine can move without a launch that lacks one, and each move shortens what is left.
  pub pool_progress :
      (messages : ℕ) {p : Pool}
      → 0 < concurrency
      → Reach concurrency (fresh messages) p
      → p.unticketed ≡ 0
      → p.main ≢ returned
      → (q : Pool) × Work concurrency p q × (q.unticketed ≡ 0) × (remaining q < remaining p)
  pool_progress messages {p} room reached none left =
      let h = Reach-IsCounted concurrency (fresh-IsCounted concurrency messages) reached in
      let (q, s, same) = moves p p.main refl left room h none in
      (q, s, same ∙ none, work_decreases s)

  returns_within :
      (fuel messages : ℕ) (p : Pool)
      → remaining p < fuel
      → 0 < concurrency
      → Reach concurrency (fresh messages) p
      → p.unticketed ≡ 0
      → (q : Pool) × Reach concurrency p q × (q.main ≡ returned)
  returns_within zero messages p lt room reached none = elim lt [ ]
  returns_within (suc fuel) messages p lt room reached none = elim (returned? p.main) [
    | inl back ↦ (p, here, back)
    | inr left ↦
        let (q, s, same, less) = pool_progress messages room reached none left in
        let (r, later, back) =
          returns_within fuel messages q (omega arith) room (next reached (work s)) same in
        (r, before (work s) later, back)
  ]

  -- For a concurrency above 0: from every state that a call reaches without a launch that sent no
  -- token (`unticketed` is 0), the return can be reached.
  pub pool_returns :
      (messages : ℕ) (p : Pool)
      → 0 < concurrency
      → Reach concurrency (fresh messages) p
      → p.unticketed ≡ 0
      → (q : Pool) × Reach concurrency p q × (q.main ≡ returned)
  pool_returns messages p = returns_within (suc (remaining p)) messages p (omega arith)
