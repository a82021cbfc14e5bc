-- ===== src/Idempotency/Lawful.antt =====
-- What the worker relies on in an idempotency store, as laws over two views of its state.
use log_morph.Common.{String, ◌≡◌, Bool, true, false, ok, ◌==◌, if◌then◌else◌, arith, eq_iff, refl}
use log_morph.Common.Integer.{ℤ}
use log_morph.Common.GoMap.{get-put, get-delete}
use log_morph.Idempotency.{
  IdempotencyStore, Memory, memory_store, flag, memory_try_claim, memory_release, memory_mark_done,
  memory_is_done,
}

-- which events are locked, and which are marked done
pub record Views (I : Type 0) : Type 0 where
  pub locked : I → String → Bool
  pub done : I → String → Bool

-- No operation fails, `TryClaimProcessing` takes a lock that is free, `ReleaseProcessing` frees it,
-- `MarkDone` sets the marker, and none of them touches another event's lock or marker. Whether
-- `MarkDone` frees the lock is left open.
pub record IsLawful {I : Type 0} (s : IdempotencyStore I) (v : Views I) : Type 0 where
  pub is_done_lem : (id : String) (i : I) → s.is_done id i ≡ (ok (v.done i id), i)
  pub claim_answer :
      (id : String) (ttl : ℤ) (i : I)
      → (s.try_claim_processing id ttl i).0 ≡ ok (if v.locked i id then false else true)
  pub claim_locked :
      (id : String) (ttl : ℤ) (i : I) (j : String)
      → v.locked (s.try_claim_processing id ttl i).1 j ≡ (if id == j then true else v.locked i j)
  pub claim_done :
      (id : String) (ttl : ℤ) (i : I) (j : String)
      → v.done (s.try_claim_processing id ttl i).1 j ≡ v.done i j
  pub claim_refused :
      (id : String) (ttl : ℤ) (i : I)
      → v.locked i id ≡ true
      → (s.try_claim_processing id ttl i).1 ≡ i
  pub release_locked :
      (id : String) (i : I) (j : String)
      → v.locked (s.release_processing id i).1 j ≡ (if id == j then false else v.locked i j)
  pub release_done :
      (id : String) (i : I) (j : String) → v.done (s.release_processing id i).1 j ≡ v.done i j
  pub mark_done_lem :
      (id : String) (ttl : ℤ) (i : I) (j : String)
      → v.done (s.mark_done id ttl i).1 j ≡ (if id == j then true else v.done i j)
  pub mark_done_others :
      (id : String) (ttl : ℤ) (i : I) (j : String)
      → (id == j) ≡ false
      → v.locked (s.mark_done id ttl i).1 j ≡ v.locked i j

abbrev pub memory_locked : Memory → String → Bool
memory_locked m id = flag m.processing id

abbrev pub memory_done : Memory → String → Bool
memory_done m id = flag m.done id

memory_claim_locked :
    (id : String) (ttl : ℤ) (m : Memory) (j : String)
    → memory_locked (memory_try_claim id ttl m).1 j ≡ (if id == j then true else memory_locked m j)
unfolding memory_try_claim
memory_claim_locked id ttl m j = ground (arith, get-put m.processing id true j, eq_iff id j)

memory_claim_done :
    (id : String) (ttl : ℤ) (m : Memory) (j : String)
    → memory_done (memory_try_claim id ttl m).1 j ≡ memory_done m j
unfolding memory_try_claim
memory_claim_done id ttl m j = ground arith

memory_claim_refused :
    (id : String) (ttl : ℤ) (m : Memory)
    → memory_locked m id ≡ true
    → (memory_try_claim id ttl m).1 ≡ m
unfolding memory_try_claim
memory_claim_refused id ttl m h = ground arith

memory_claim_answer :
    (id : String) (ttl : ℤ) (m : Memory)
    → (memory_try_claim id ttl m).0 ≡ ok (if memory_locked m id then false else true)
unfolding memory_try_claim
memory_claim_answer id ttl m = ground arith

memory_release_locked :
    (id : String) (m : Memory) (j : String)
    → memory_locked (memory_release id m).1 j ≡ (if id == j then false else memory_locked m j)
unfolding memory_release
memory_release_locked id m j = ground (arith, get-delete m.processing id j)

memory_mark_done_lem :
    (id : String) (ttl : ℤ) (m : Memory) (j : String)
    → memory_done (memory_mark_done id ttl m).1 j ≡ (if id == j then true else memory_done m j)
unfolding memory_mark_done
memory_mark_done_lem id ttl m j = ground (arith, get-put m.done id true j)

memory_mark_done_locked :
    (id : String) (ttl : ℤ) (m : Memory) (j : String)
    → memory_locked (memory_mark_done id ttl m).1 j ≡ (if id == j then false else memory_locked m j)
unfolding memory_mark_done
memory_mark_done_locked id ttl m j = ground (arith, get-delete m.processing id j)

memory_release_done :
    (id : String) (m : Memory) (j : String)
    → memory_done (memory_release id m).1 j ≡ memory_done m j
unfolding memory_release
memory_release_done id m j = refl

memory_is_done_lem : (id : String) (m : Memory) → memory_is_done id m ≡ (ok (memory_done m id), m)
unfolding memory_is_done
memory_is_done_lem id m = refl

abbrev pub memory_views : Views Memory
memory_views = record { locked = memory_locked; done = memory_done }

-- The in-memory store keeps the contract: an event is locked while its flag in `processing` is set,
-- and done once its flag in `done` is.
pub memory_store-IsLawful : IsLawful memory_store memory_views
memory_store-IsLawful = record {
  is_done_lem = memory_is_done_lem;
  claim_answer = memory_claim_answer;
  claim_locked = memory_claim_locked;
  claim_done = memory_claim_done;
  claim_refused = memory_claim_refused;
  release_locked = memory_release_locked;
  release_done = memory_release_done;
  mark_done_lem = memory_mark_done_lem;
  mark_done_others = λ id ttl m j ne. rw memory_mark_done_locked (rw ne);
}
