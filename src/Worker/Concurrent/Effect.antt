-- ===== src/Worker/Concurrent/Effect.antt =====
-- What one call of a goroutine does to the locks and the markers, whatever the lawful store.
use log_morph.Common.{String, ◌≡◌, refl, Bool, true, false, arith, ◌==◌, eq_refl, ℕ}
use log_morph.Common.Integer.{ℤ}
use log_morph.Idempotency.{IdempotencyStore}
use log_morph.Idempotency.Lawful.{Views, IsLawful}
use log_morph.Worker.Concurrent.{
  Phase, starting, checked, running, succeeded, failed, acking, finished, advance, holds,
}

module _ {I : Type 0} (store : IdempotencyStore I) {v : Views I} (law : IsLawful store v)
    (lock_ttl done_ttl : ℤ) (ids : ℕ → String) (id : String) (outcome : Bool) where
  abbrev next : Phase → I → Phase × I
  next p i = advance store lock_ttl done_ttl ids id outcome p i

  -- Other events' locks stay.
  pub advance_others :
      (p : Phase) (i : I) (j : String) → (id == j) ≡ false → v.locked (next p i).1 j ≡ v.locked i j
  unfolding advance
  advance_others starting i j ne = rw law.is_done_lem
  advance_others checked i j ne = rw (law.claim_locked, ne)
  advance_others running i j ne = refl
  advance_others succeeded i j ne = law.mark_done_others id done_ttl i j ne
  advance_others failed i j ne = rw (law.release_locked, ne)
  advance_others acking i j ne = refl
  advance_others finished i j ne = refl

  -- A goroutine that holds its event after the call has it locked.
  pub advance_holds :
      (p : Phase) (i : I)
      → (holds p ≡ true → v.locked i id ≡ true)
      → holds (next p i).0 ≡ true
      → v.locked (next p i).1 id ≡ true
  unfolding advance
  advance_holds starting i before after = ground (arith, law.is_done_lem id i)
  advance_holds checked i before after = rw (law.claim_locked, eq_refl id)
  advance_holds running i before after = before refl
  advance_holds succeeded i before after = ground arith
  advance_holds failed i before after = ground arith
  advance_holds acking i before after = ground arith
  advance_holds finished i before after = ground arith

  -- A goroutine that comes to hold its event has found the lock free.
  pub advance_claims :
      (p : Phase) (i : I) → holds p ≡ false → holds (next p i).0 ≡ true → v.locked i id ≡ false
  unfolding advance
  advance_claims starting i before after = ground (arith, law.is_done_lem id i)
  advance_claims checked i before after = ground (arith, law.claim_answer id lock_ttl i)
  advance_claims p i before after = ground arith

  -- Only a goroutine that holds its event frees its lock.
  pub advance_keeps :
      (p : Phase) (i : I) (j : String)
      → holds p ≡ false
      → v.locked i j ≡ true
      → v.locked (next p i).1 j ≡ true
  unfolding advance
  advance_keeps starting i j before h = rw law.is_done_lem h
  advance_keeps checked i j before h = rw (law.claim_locked, h) (ground arith)
  advance_keeps p i j before h = ground arith
