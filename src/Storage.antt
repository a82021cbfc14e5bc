-- ===== src/Storage.antt =====
-- internal/storage/raw/store.go: the interface and `MemoryRawStore`, whose map holds pointers. The
-- heap is explicit, because the store copies events in and out so that nobody can change them.
pub mod Clients
pub mod Immutability
pub mod Minio
use log_morph.Common.{
  ℕ, ◌+◌, String, Bool, Option, none, some, Error, message, Result, ok, err, eqb, ◌==◌,
  if◌then◌else◌,
}
use log_morph.Common.Text.{◌+++◌}
use log_morph.Common.GoMap.{Map, empty, get, put}
use log_morph.Models.{RawEvent}

-- `RawEventStore`. The worker passes the address of its own copy of the event, and reads the event
-- behind the pointer that it gets. `Close` does nothing in either implementation.
pub record RawEventStore (R : Type 0) : Type 0 where
  pub put : RawEvent → R → Option Error × R
  pub get : String → R → Result RawEvent × R

-- Pointers below `next` are allocated.
pub record Heap : Type 0 where
  pub cells : ℕ → RawEvent
  pub next : ℕ

abbrev pub update : (ℕ → RawEvent) → ℕ → RawEvent → ℕ → RawEvent
update cells p e q = if eqb q p then e else cells q

-- `*p = e`
unfoldable pub write : Heap → ℕ → RawEvent → Heap
write h p e = record h { cells = update h.cells p e }

-- `copied := e`, whose address escapes
unfoldable pub alloc : Heap → RawEvent → Heap
alloc h e = record { cells = update h.cells h.next e; next = h.next + 1 }

pub record MemoryRawStore : Type 0 where
  pub events : Map ℕ

abbrev pub new_memory_raw_store : MemoryRawStore
new_memory_raw_store = record { events = empty }

-- `Put`
unfoldable pub put_raw : MemoryRawStore → Heap → Option ℕ → Option Error × MemoryRawStore × Heap
unfolding alloc
put_raw s h none = (some (message "invalid raw event or missing event_id"), s, h)
put_raw s h (some p) =
    let event = h.cells p in
    if event.event_id == ""
    then (some (message "invalid raw event or missing event_id"), s, h)
    else (none, record { events = put s.events event.event_id h.next }, alloc h event)

copy_out : String → Heap → Option ℕ → Result ℕ × Heap
unfolding alloc
copy_out event_id h none = (err (message ("raw event " +++ event_id +++ " not found")), h)
copy_out event_id h (some p) = (ok h.next, alloc h (h.cells p))

-- `Get` returns the address of a copy.
unfoldable pub get_raw : MemoryRawStore → Heap → String → Result ℕ × Heap
unfolding copy_out
get_raw s h event_id = copy_out event_id h (get s.events event_id)

abbrev pub Memory : Type 0
Memory = MemoryRawStore × Heap

-- the event behind the pointer that `Get` returned
abbrev read : Result ℕ → Heap → Result RawEvent
read (ok p) h = ok (h.cells p)
read (err e) h = err e

-- `MemoryRawStore` as the worker uses it
unfoldable pub memory_put : RawEvent → Memory → Option Error × Memory
unfolding put_raw
memory_put e (s, h) =
    let (failed, s', h') = put_raw s (alloc h e) (some h.next) in (failed, (s', h'))

unfoldable pub memory_get : String → Memory → Result RawEvent × Memory
unfolding get_raw
memory_get event_id (s, h) = let (found, h') = get_raw s h event_id in (read found h', (s, h'))

abbrev pub memory_raw_store : RawEventStore Memory
memory_raw_store = record { put = memory_put; get = memory_get }
