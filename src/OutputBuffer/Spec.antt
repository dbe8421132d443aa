-- ===== src/OutputBuffer/Spec.antt =====
-- What an output buffer promises (src/OutputBuffer.h), in terms of its history: all the bytes that
-- were ever written, of which it keeps the last `_maxCapacity`.
use mathlib.Core.List.{Mem}
use ml_gridengine_executor.Base.{
  ℕ, ◌-◌, ◌^◌, ◌≤◌, ◌<◌, ◌≡◌, ap, List, [], Bool, arith, min, max, ltb, if◌then◌else◌, length, take,
  drop, take_last, length-take_last,
}
use ml_gridengine_executor.ReadResult.{ReadResult, result, closed, timeout}
use ml_gridengine_executor.Ring.{Ring}
use ml_gridengine_executor.Ring.Contents.{IsValid, contents, length-contents}
use ml_gridengine_executor.Heap.{ReadRequest, PairingHeap}
use ml_gridengine_executor.Readers.Weigh.{Distinct}
use ml_gridengine_executor.Readers.Counts.{Counts}
use ml_gridengine_executor.OutputBuffer.{OutputBuffer}

-- The bytes of the history that a read of `count` bytes at `position` gives.
abbrev pub piece : List ℕ → ℕ → ℕ → List ℕ
piece history position count = take count (drop position history)

-- A read at `position`: bytes that are lost are passed over; past the end there is nothing to read.
unfoldable pub read_spec : Bool → ℕ → List ℕ → ℕ → ℕ → ReadResult × List ℕ
read_spec is_closed capacity history position count =
    let first : ℕ = max position (length history - capacity) in
    let bytes : List ℕ = piece history first count in
    if ltb position (length history)
    then (result first (length bytes), bytes)
    else if is_closed
    then (closed, [])
    else (timeout, [])

-- A ring that keeps the last bytes of a history.
pub record Keeps (r : Ring) (history : List ℕ) : Type 0 where
  pub valid : IsValid r
  pub last : contents r ≡ take_last r.max_capacity history
  pub written : r.written_bytes ≡ length history
  pub in_range : length history < 2 ^ 63

pub size-Keeps : {r : Ring} {h : List ℕ} → Keeps r h → r.size ≡ min r.max_capacity (length h)
size-Keeps {r} {h} k =
    omega (arith, length-contents k.valid, ap length k.last, length-take_last r.max_capacity h)

module _ (H : PairingHeap) where
  open H use {items}

  -- A buffer that holds a history: no request waits for bytes that are there.
  pub record Holds (b : OutputBuffer H) (history : List ℕ) : Type 0 where
    pub keeps : Keeps b.ring history
    pub distinct : Distinct (items b.readers.heap)
    pub late : (x : ReadRequest) → Mem x (items b.readers.heap) → length history ≤ x.begin

  -- A buffer that represents a history: the counters of its readers are right besides.
  pub record Represents (b : OutputBuffer H) (history : List ℕ) : Type 0 where
    pub keeps : Keeps b.ring history
    pub counts : Counts H b.readers
    pub distinct : Distinct (items b.readers.heap)
    pub late : (x : ReadRequest) → Mem x (items b.readers.heap) → length history ≤ x.begin

  pub holds : {b : OutputBuffer H} {history : List ℕ} → Represents b history → Holds b history
  holds rep = record { keeps = rep.keeps; distinct = rep.distinct; late = rep.late }
