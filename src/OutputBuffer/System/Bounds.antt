-- ===== src/OutputBuffer/System/Bounds.antt =====
-- What an output buffer holds in every state that the threads can reach (src/OutputBuffer.cpp).
use ml_gridengine_executor.Base.{
  ℕ, ◌^◌, ◌≤◌, ◌≡◌, inl, inr, sym, ◌∙◌, List, some, arith, Bool-cases, length,
}
use ml_gridengine_executor.Result.{ok}
use ml_gridengine_executor.Ring.Expand.{Allocates}
use ml_gridengine_executor.Heap.{PairingHeap}
use ml_gridengine_executor.OutputBuffer.{OutputBuffer, new_buffer, close, enqueue}
use ml_gridengine_executor.OutputBuffer.Write.{write-Wrote}
use ml_gridengine_executor.OutputBuffer.System.{
  System, Step, writes, reads, starts_waiting, wakes, times_out, closes, initial, Reach, here, next,
}
use ml_gridengine_executor.OutputBuffer.System.Invariant.{IsSound}
use ml_gridengine_executor.OutputBuffer.Close.{close-Holds, close_again}
use ml_gridengine_executor.OutputBuffer.System.Writes.{write_open_only}
use ml_gridengine_executor.OutputBuffer.System.Waits.{read-waits_inv}
use ml_gridengine_executor.OutputBuffer.System.Safety.{Reach-IsSound, initial-IsSound}
use ml_gridengine_executor.Ring.Contents.{contents}
use ml_gridengine_executor.Base.{take_last, ap, refl}
use ml_gridengine_executor.OutputBuffer.Spec.{Holds}
use ml_gridengine_executor.OutputBuffer.{time_out}
use ml_gridengine_executor.OutputBuffer.{new_ring}

module _ (H : PairingHeap) (malloc : ℕ → List ℕ) where
  open H use {items}

  close-same_max :
      (b b' : OutputBuffer H) (history : List ℕ)
      → Holds H b history
      → close H b ≡ some b'
      → b'.ring.max_capacity ≡ b.ring.max_capacity
  close-same_max b b' history rep e = elim (Bool-cases b.is_closed) [
    | inl t ↦
        let q : some b ≡ some b' = sym (close_again H b t) ∙ e in
        let p : b ≡ b' = cc q in sym (ap (λ c. c.ring.max_capacity) p)
    | inr t ↦
        let (b'', e'', c) = close-Holds H b history rep t in
        let q : some b'' ≡ some b' = sym e'' ∙ e in
        let p : b'' ≡ b' = cc q in
        sym (ap (λ c. c.ring.max_capacity) p) ∙ ap (λ r. r.max_capacity) c.same_ring
  ]

  Step-same_max :
      {s t : System H malloc}
      → Allocates malloc
      → IsSound H malloc s
      → Step H malloc s t
      → t.buffer.ring.max_capacity ≡ s.buffer.ring.max_capacity
  unfolding enqueue time_out
  Step-same_max {s} alloc sound (writes bytes b in_range e) =
      let open_b = write_open_only H malloc s.buffer b bytes e in
      let (b', e', w) = write-Wrote H malloc alloc bytes sound.still_holds in_range open_b in
      let q : ok b' ≡ ok b = sym e' ∙ e in
      let p : b' ≡ b = cc q in sym (ap (λ c. c.ring.max_capacity) p) ∙ w.same_max
  Step-same_max alloc sound (reads id begin count r bytes e) = refl
  Step-same_max {s} alloc sound (starts_waiting id begin count x b range idle fresh e) =
      let (p, q, late, open_b) =
        read-waits_inv H s.buffer b s.history id begin count x sound.still_holds range e in
      ap (λ c. c.ring.max_capacity) q
  Step-same_max alloc sound (wakes x e signalled) = refl
  Step-same_max alloc sound (times_out x e) = refl
  Step-same_max {s} alloc sound (closes b e) =
      close-same_max s.buffer b s.history sound.still_holds e

  Reach-same_max :
      {s t : System H malloc}
      → Allocates malloc
      → IsSound H malloc s
      → Reach H malloc s t
      → t.buffer.ring.max_capacity ≡ s.buffer.ring.max_capacity
  Reach-same_max alloc sound here = refl
  Reach-same_max alloc sound (next r step) =
      Step-same_max alloc (Reach-IsSound H malloc alloc r sound) step ∙ Reach-same_max alloc sound r

  -- With a malloc that allocates, a maximum capacity from 1 to 2^63, an initial capacity of at
  -- least 1 and fewer than 2^63 bytes written: in every state that a new buffer, its writer and its
  -- readers reach, the buffer uses at most the maximum capacity, holds exactly the last bytes of all
  -- that have been written, as many as the maximum capacity allows, and counts all of them.
  pub holds_last :
      (size initial_size : ℕ)
      → Allocates malloc
      → 1 ≤ size
      → size ≤ 2 ^ 63
      → 1 ≤ initial_size
      → {s : System H malloc} → Reach H malloc (initial H malloc size initial_size) s
      → (s.buffer.ring.capacity ≤ size)
        × (contents s.buffer.ring ≡ take_last size s.history)
        × (s.buffer.ring.written_bytes ≡ length s.history)
  unfolding new_buffer new_ring
  holds_last size initial_size alloc pos small pos' {s} r =
      let start = initial-IsSound H malloc size initial_size alloc pos small pos' in
      let sound = Reach-IsSound H malloc alloc r start in
      let rep = sound.still_holds in
      let same_max : s.buffer.ring.max_capacity ≡ size = Reach-same_max alloc start r in
      (
        omega (arith, rep.keeps.valid, same_max),
        rep.keeps.last ∙ ap (λ m. take_last m s.history) same_max,
        rep.keeps.written,
      )
