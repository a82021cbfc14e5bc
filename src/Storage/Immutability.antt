-- ===== src/Storage/Immutability.antt =====
-- What a `MemoryRawStore` holds, whatever its clients do with their own pointers.
use log_morph.Common.{
  ℕ, ◌<◌, String, ◌≡◌, refl, true, false, Option, none, some, List, [], ◌∷◌, arith, Option-cases,
  inl, inr, ◌∙◌,
}
use log_morph.Common.GoMap.{get, get-put}
use log_morph.Models.{RawEvent}
use log_morph.Storage.Clients.{
  System, Op, make, assign, store_put, store_get, run_op, run, view, IsSeparate, archived,
  with_event, archives, NeverArchives,
}

module _ (w : System) (h : IsSeparate w) where
  run_op-owned :
      (op : Op) (k : String) (p : ℕ)
      → get (run_op w op).store.events k ≡ some p
      → (p < (run_op w op).heap.next) × ((run_op w op).held p ≡ false)
  unfolding run_op
  run_op-owned (make e) k p found = ground (arith, h.owned k p found)
  run_op-owned (assign q e) k p found = ground (arith, h.owned k p)
  run_op-owned (store_put none) k p found = ground (arith, h.owned k p)
  run_op-owned (store_put (some q)) k p found = ground (
    arith,
    h.owned k p,
    get-put w.store.events (w.heap.cells q).event_id w.heap.next k,
    h.allocated p,
  )
  run_op-owned (store_get id) k p found = ground (arith, h.owned k p)

  run_op-allocated : (op : Op) (p : ℕ) → (run_op w op).held p ≡ true → p < (run_op w op).heap.next
  unfolding run_op
  run_op-allocated (store_put none) p held = ground (arith, h.allocated p)
  run_op-allocated (store_put (some q)) p held = ground (arith, h.allocated p)
  run_op-allocated op p held = ground (arith, h.allocated p)

  run_op-IsSeparate : (op : Op) → IsSeparate (run_op w op)
  run_op-IsSeparate op = record { owned = run_op-owned op; allocated = run_op-allocated op }

  view-run_op :
      (op : Op) (k : String) → view (run_op w op) k ≡ with_event (archived w op) (view w) k
  unfolding run_op view
  view-run_op (make e) k = elim (Option-cases (get w.store.events k)) [
    | inl missing ↦ rw missing
    | inr (p, found) ↦ ground (arith, h.owned k p found)
  ]
  view-run_op (assign q e) k = elim (Option-cases (get w.store.events k)) [
    | inl missing ↦ ground arith
    | inr (p, found) ↦ ground (arith, h.owned k p found)
  ]
  view-run_op (store_put none) k = refl
  view-run_op (store_put (some q)) k = elim (Option-cases (get w.store.events k)) [
    | inl missing ↦ ground (arith, get-put w.store.events (w.heap.cells q).event_id w.heap.next k)
    | inr (p, found) ↦
        ground
          (arith, h.owned k p found, get-put w.store.events (w.heap.cells q).event_id w.heap.next k)
  ]
  view-run_op (store_get id) k = elim (Option-cases (get w.store.events k)) [
    | inl missing ↦ ground arith
    | inr (p, found) ↦ ground (arith, h.owned k p found)
  ]

-- Whatever clients do with the pointers that they hold, an operation changes what the store holds
-- as `m[event.EventID] = event` changes a map of values, and changes nothing if it is no
-- successful `Put`.
pub put_refines_map :
    (w : System) (op : Op)
    → IsSeparate w
    → IsSeparate (run_op w op)
      × ((k : String) → view (run_op w op) k ≡ with_event (archived w op) (view w) k)
put_refines_map w op h = (run_op-IsSeparate w h op, view-run_op w h op)

-- An archived event stays what it was at `Put`, through any later operations (writes through
-- every pointer that was passed in or handed out among them) that do not archive its id again.
pub archive_immutable :
    (w : System) (ops : List Op) (k : String)
    → IsSeparate w
    → NeverArchives w ops k
    → view (run w ops) k ≡ view w k
unfolding run
archive_immutable w [] k h never = refl
archive_immutable w (op ∷ ops) k h (now, later) =
    archive_immutable (run_op w op) ops k (run_op-IsSeparate w h op) later
    ∙ (view-run_op w h op k ∙ untouched (archived w op) now)
  where
    untouched : (e : Option RawEvent) → archives e k ≡ false → with_event e (view w) k ≡ view w k
    untouched none _ = refl
    untouched (some e) other = rw other
