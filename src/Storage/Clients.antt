-- ===== src/Storage/Clients.antt =====
-- The clients of a `MemoryRawStore`: what they can do with the pointers that they hold.
use log_morph.Common.{
  ℕ, ◌<◌, String, ◌≡◌, Bool, true, false, Option, none, some, List, [], ◌∷◌, ok, err, eqb, ◌==◌,
  if◌then◌else◌,
}
use log_morph.Common.GoMap.{get}
use log_morph.Models.{RawEvent}
use log_morph.Storage.{Heap, write, alloc, MemoryRawStore, put_raw, get_raw}

-- A store, the heap that it shares with its clients, and which pointers the clients hold.
pub record System : Type 0 where
  pub store : MemoryRawStore
  pub heap : Heap
  pub held : ℕ → Bool

-- What a client can do: make an event, write through a pointer that it holds, call `Put` with such
-- a pointer or with nil, and call `Get`, which gives it one more pointer.
pub data Op : Type 0 where
  make : RawEvent → Op
  assign : ℕ → RawEvent → Op
  store_put : Option ℕ → Op
  store_get : String → Op

hold : (ℕ → Bool) → ℕ → ℕ → Bool
hold held p q = if eqb q p then true else held q

abbrev holds_arg : System → Option ℕ → Bool
holds_arg w none = true
holds_arg w (some p) = w.held p

unfoldable pub run_op : System → Op → System
unfolding hold write put_raw get_raw
run_op w (make e) = record w { heap = alloc w.heap e; held = hold w.held w.heap.next }
run_op w (assign p e) = if w.held p then record w { heap = write w.heap p e } else w
run_op w (store_put p) =
    if holds_arg w p
    then (let (_, s, h) = put_raw w.store w.heap p in record w { store = s; heap = h })
    else w
run_op w (store_get event_id) =
    let (found, h) = get_raw w.store w.heap event_id in
    elim found [ ok p ↦ record w { heap = h; held = hold w.held p } | err _ ↦ w ]

unfoldable pub run : System → List Op → System
run w [] = w
run w (op ∷ ops) = run (run_op w op) ops

-- The event that `Get` would copy out.
abbrev pub behind : Heap → Option ℕ → Option RawEvent
behind h none = none
behind h (some p) = some (h.cells p)

unfoldable pub view : System → String → Option RawEvent
view w event_id = behind w.heap (get w.store.events event_id)

-- The store's pointers are allocated and no client holds one.
pub record IsSeparate (w : System) : Type 0 where
  pub owned :
      (k : String) (p : ℕ) → get w.store.events k ≡ some p → (p < w.heap.next) × (w.held p ≡ false)
  pub allocated : (p : ℕ) → w.held p ≡ true → p < w.heap.next

-- The event that an operation archives: `Put` with a pointer to an event that has an id.
abbrev pub archived : System → Op → Option RawEvent
archived w (store_put (some p)) =
    if w.held p
    then (if (w.heap.cells p).event_id == "" then none else some (w.heap.cells p))
    else none
archived w _ = none

-- A map with one more event under its id, with no pointers at all.
abbrev pub with_event : Option RawEvent → (String → Option RawEvent) → String → Option RawEvent
with_event none m k = m k
with_event (some e) m k = if e.event_id == k then some e else m k

abbrev pub archives : Option RawEvent → String → Bool
archives none k = false
archives (some e) k = e.event_id == k

-- No operation of the run archives an event under `k`.
abbrev pub NeverArchives : System → List Op → String → Type 0
NeverArchives w [] k = Unit
NeverArchives w (op ∷ ops) k =
    (archives (archived w op) k ≡ false) × NeverArchives (run_op w op) ops k
