-- ===== src/OutputBuffer/New.antt =====
-- The constructor of `OutputBuffer` (src/OutputBuffer.cpp), and the buffer of capacity zero.
use mathlib.Core.List.{Mem, not-mem-nil}
use ml_gridengine_executor.Readers.{waiting}
use ml_gridengine_executor.Readers.Counts.{active}
use ml_gridengine_executor.Base.{
  subst, ℕ, ◌-◌, ◌^◌, ◌≤◌, ◌≡◌, refl, ap, ◌∙◌, List, [], true, false, none, arith, length, drop,
  drop-nil, sym, Bool, ◌&&◌, ltb, if◌then◌else◌, add64, sub64, leb-true, ltb-false,
}
use ml_gridengine_executor.Result.{fault, throws, illegal_state, or_fault}
use ml_gridengine_executor.Memory.{rem-zero}
use ml_gridengine_executor.Ring.{Ring, circular_write, overwrite_within, overwrite}
use ml_gridengine_executor.Ring.Expand.{Allocates}
use ml_gridengine_executor.Heap.{PairingHeap}
use ml_gridengine_executor.OutputBuffer.{new_buffer, OutputBuffer, new_ring, write_open, write}
use ml_gridengine_executor.OutputBuffer.Spec.{Keeps, Represents}

-- With a malloc that allocates, an initial capacity of at least 1 and a maximum from 1 to 2 ^ 63,
-- a new buffer keeps the empty history.
pub new_ring-Keeps :
    (malloc : ℕ → List ℕ) (max_capacity initial_capacity : ℕ)
    → Allocates malloc
    → 1 ≤ max_capacity
    → max_capacity ≤ 2 ^ 63
    → 1 ≤ initial_capacity
    → Keeps (new_ring malloc max_capacity initial_capacity) []
unfolding new_ring
new_ring-Keeps malloc m i alloc pos small pos' = record {
  valid = omega (arith, alloc m);
  last = sym (drop-nil (0 - m));
  written = refl;
  in_range = omega arith;
}

module _ (H : PairingHeap) (malloc : ℕ → List ℕ) (b : OutputBuffer H) (bytes : List ℕ)
    (no_capacity : b.ring.capacity ≡ 0) (no_max : b.ring.max_capacity ≡ 0) where
  circular_write_zero : (r : Ring) → r.capacity ≡ 0 → (xs : List ℕ) → circular_write r xs ≡ none
  unfolding circular_write
  circular_write_zero r e xs = rw (e, rem-zero (add64 r.head r.size)) refl

  overwrite_within_zero : (r : Ring) → r.capacity ≡ 0 → overwrite_within r bytes ≡ none
  unfolding overwrite_within
  overwrite_within_zero r e =
      rw
        (
          leb-true r.capacity (length bytes) (omega arith),
          circular_write_zero (record r { size = 0 }) e
              (drop (sub64 (length bytes) r.capacity) bytes),
        )
        refl

  no_room : (c : Bool) → (c && ltb b.ring.capacity b.ring.max_capacity) ≡ false
  no_room true = ltb-false b.ring.capacity b.ring.max_capacity (omega arith)
  no_room false = refl

  overwrite_zero : overwrite malloc b.ring bytes ≡ none
  unfolding overwrite
  overwrite_zero =
      rw (no_room (ltb b.ring.capacity (add64 b.ring.size (length bytes))))
        (overwrite_within_zero b.ring no_capacity)

  write_open_zero : write_open H malloc b bytes ≡ none
  unfolding write_open
  write_open_zero = rw overwrite_zero refl

  -- In an open buffer whose capacity and maximum capacity are zero, any write divides by zero,
  -- even that of no bytes.
  pub write_zero_capacity : b.is_closed ≡ false → write H malloc b bytes ≡ fault
  unfolding write
  write_zero_capacity e =
      ap (λ c. if c then throws illegal_state else or_fault (write_open H malloc b bytes)) e
      ∙ ap or_fault write_open_zero

-- A new buffer represents the empty history, and nobody waits.
pub new_buffer-Represents :
    (H : PairingHeap) (malloc : ℕ → List ℕ) (max_capacity initial_capacity : ℕ)
    → Allocates malloc
    → 1 ≤ max_capacity
    → max_capacity ≤ 2 ^ 63
    → 1 ≤ initial_capacity
    → Represents H (new_buffer H malloc max_capacity initial_capacity) []
unfolding new_buffer
new_buffer-Represents H malloc m i alloc pos small pos' = record {
  keeps = new_ring-Keeps malloc m i alloc pos small pos';
  counts = record {
    sized = sym (ap length H.items-empty);
    counted = sym (ap (active (λ id. waiting)) H.items-empty);
    small = omega arith;
  };
  distinct = λ k. rw H.items-empty (omega arith);
  late = λ x m'. absurd (not-mem-nil (subst (Mem x) H.items-empty m'));
}
