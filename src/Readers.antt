-- ===== src/Readers.antt =====
-- `OutputBuffer::ReaderList` (src/OutputBuffer.cpp): the requests that wait for output. The parts of
-- a request that change are reached through shared pointers, so they stand in a store, by the
-- request's identity; the heap holds the parts that do not change.
pub mod Weigh
pub mod Counts
pub mod Reached
pub mod Popped
pub mod Process
pub mod Members
pub mod Close
use ml_gridengine_executor.Base.{
  ℕ, zero, suc, ◌+◌, ◌*◌, ◌%◌, List, [], ◌∷◌, Bool, true, false, ◌&&◌, Option, none, some, ltb,
  ◌==◌, ◌>>=◌, if◌then◌else◌, length, add64, sub64, word,
}
use ml_gridengine_executor.ReadResult.{ReadResult, result, closed}
use ml_gridengine_executor.Heap.{ReadRequest, PairingHeap}

-- The fields of a `ReadRequest` that change: `result`, the bytes at `target`, `cancelled`, and
-- whether its condition has been signalled.
pub record ReadState : Type 0 where
  pub result : ReadResult
  pub target : List ℕ
  pub cancelled : Bool
  pub signalled : Bool

-- A request when it has been constructed.
abbrev pub waiting : ReadState
waiting = record { result = result 0 0; target = []; cancelled = false; signalled = false }

abbrev pub update : (ℕ → ReadState) → ℕ → ReadState → ℕ → ReadState
update s k v j = if j == k then v else s j

module _ (H : PairingHeap) where
  open H use {Heap, empty, push, top, pop, items}

  pub record ReaderList : Type 0 where
    pub heap : Heap
    pub heap_size : ℕ
    pub active_count : ℕ
    pub requests : ℕ → ReadState

  unfoldable pub add : ReadRequest → ReaderList → ReaderList
  add x l = record l {
    heap = push x l.heap;
    heap_size = add64 l.heap_size 1;
    active_count = add64 l.active_count 1;
  }

  -- The loop of `cancel` over the old heap: it copies the requests that are not cancelled.
  unfoldable pub copy_active : (ℕ → ReadState) → List ReadRequest → Heap → Heap
  copy_active s [] h = h
  copy_active s (x ∷ xs) h = copy_active s xs (if (s x.id).cancelled then h else push x h)

  unfoldable pub cancel : ReadRequest → ReaderList → ReaderList
  unfolding copy_active
  cancel x l =
      let active : ℕ = sub64 l.active_count 1 in
      let s : ℕ → ReadState =
        update l.requests x.id (record (l.requests x.id) { cancelled = true }) in
      if ltb (active * 8 % word) l.heap_size && ltb 1000 l.heap_size
      then record {
        heap = copy_active s (items l.heap) empty;
        heap_size = active;
        active_count = active;
        requests = s;
      }
      else record l { active_count = active; requests = s }

  -- The loop of `close`; `none` means that the fuel ran out.
  unfoldable pub close_loop : ℕ → Heap → (ℕ → ReadState) → Option (Heap × (ℕ → ReadState))
  close_loop zero h s = none
  close_loop (suc fuel) h s = elim (top h) [
    | none ↦ some (h, s)
    | some x ↦
        close_loop fuel (pop h)
          (update s x.id (record (s x.id) { result = closed; signalled = true }))
  ]

  unfoldable pub close : ReaderList → Option ReaderList
  unfolding close_loop
  close l = do
    (h, s) ← close_loop (suc (length (items l.heap))) l.heap l.requests
    some (record { heap = h; heap_size = 0; active_count = 0; requests = s })

  -- What `process` does with a request: `f` gives its result and the bytes for its target, or faults,
  -- and its reader is woken.
  unfoldable pub answer :
      (ReadRequest → Option (ReadResult × List ℕ)) → ReadRequest → ReaderList → Option ReaderList
  answer f x l = do
    (reply, bytes) ← f x
    some (record l {
      requests =
          update l.requests x.id
            (record (l.requests x.id) { result = reply; target = bytes; signalled = true });
      active_count = sub64 l.active_count 1;
    })

  -- The test in the body of its loop.
  unfoldable pub serve :
      (ReadRequest → Option (ReadResult × List ℕ)) → ReadRequest → ReaderList → Option ReaderList
  serve f x l = elim (l.requests x.id).cancelled [ true ↦ some l | false ↦ answer f x l ]

  -- The loop of `process`; `none` means a fault, or that the fuel ran out.
  unfoldable pub process_loop :
      ℕ → ℕ → (ReadRequest → Option (ReadResult × List ℕ)) → ReaderList → Option ReaderList
  process_loop zero written f l = none
  process_loop (suc fuel) written f l = elim (top l.heap) [
    | none ↦ some l
    | some x ↦ elim (ltb x.begin written) [
      | false ↦ some l
      | true ↦ (do
        l' ← serve f x l
        process_loop fuel written f
            (record l' { heap = pop l'.heap; heap_size = sub64 l'.heap_size 1 }))
    ]
  ]

  unfoldable pub process :
      ℕ → (ReadRequest → Option (ReadResult × List ℕ)) → ReaderList → Option ReaderList
  unfolding process_loop serve answer
  process written f l = process_loop (suc (length (items l.heap))) written f l
