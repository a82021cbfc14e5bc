-- ===== src/Worker/Message/Gates.antt =====
-- What the idempotency checks find, over a store that keeps its contract.
use log_morph.Common.{String, ◌≡◌, true, false, some}
use log_morph.Idempotency.{IdempotencyStore}
use log_morph.Idempotency.Lawful.{Views, IsLawful}
use log_morph.Worker.{Worker, World, Environment}
use log_morph.Worker.Message.{check_gate, already_done, locked_elsewhere, owned}

module _ {B I R : Type 0} (env : Environment) (w : Worker B I R) (store : IdempotencyStore I)
    {v : Views I} (law : IsLawful store v) where
  -- the world in which the pipeline runs
  abbrev pub claimed_world : String → World B I R → World B I R
  claimed_world id s = record s { idem = (store.try_claim_processing id w.lock_ttl s.idem).1 }

  pub gate_done :
      (id : String) (s : World B I R)
      → v.done s.idem id ≡ true
      → check_gate env w (some store) id s ≡ (already_done, s)
  unfolding check_gate
  gate_done id s h = rw (law.is_done_lem, h)

  pub gate_locked :
      (id : String) (s : World B I R)
      → v.done s.idem id ≡ false
      → v.locked s.idem id ≡ true
      → check_gate env w (some store) id s ≡ (locked_elsewhere, s)
  unfolding check_gate
  gate_locked id s h l =
      rw (law.is_done_lem, h, law.claim_answer, l) (rw (law.claim_refused id w.lock_ttl s.idem l))

  pub gate_owned :
      (id : String) (s : World B I R)
      → v.done s.idem id ≡ false
      → v.locked s.idem id ≡ false
      → check_gate env w (some store) id s ≡ (owned, claimed_world id s)
  unfolding check_gate
  gate_owned id s h l = rw (law.is_done_lem, h, law.claim_answer, l)
