-- ===== src/OutputBuffer/System/Safety.antt =====
-- What the readers of an output buffer are given in every state that the threads can reach
-- (src/OutputBuffer.cpp).
use mathlib.Core.List.{Mem, not-mem-nil}
use ml_gridengine_executor.Base.{
  ℕ, ◌^◌, ◌≤◌, ◌<◌, ◌≡◌, ◌⊎◌, inl, inr, sym, subst, ◌∙◌, List, true, some, arith, Bool-cases,
  length, take,
}
use ml_gridengine_executor.Result.{ok}
use ml_gridengine_executor.ReadResult.{closed}
use ml_gridengine_executor.Ring.Expand.{Allocates}
use ml_gridengine_executor.Heap.{ReadRequest, PairingHeap}
use ml_gridengine_executor.OutputBuffer.{OutputBuffer, new_buffer, close, wake, enqueue}
use ml_gridengine_executor.OutputBuffer.Write.{owed, Wrote, write-Wrote}
use ml_gridengine_executor.OutputBuffer.System.{
  System, set_call, Step, writes, reads, starts_waiting, wakes, times_out, closes, initial, Reach,
  here, next,
}
use ml_gridengine_executor.OutputBuffer.System.Invariant.{IsSound}
use ml_gridengine_executor.OutputBuffer.Spec.{holds}
use ml_gridengine_executor.OutputBuffer.Wait.{request}
use ml_gridengine_executor.OutputBuffer.Close.{close-Holds, close_again}
use ml_gridengine_executor.OutputBuffer.System.Writes.{writes-IsSound, write_open_only}
use ml_gridengine_executor.OutputBuffer.System.Waits.{read-waits_inv, queued-IsSound, wakes-IsSound}
use ml_gridengine_executor.OutputBuffer.System.Timeouts.{times_out-IsSound}
use ml_gridengine_executor.OutputBuffer.System.Closes.{closes-IsSound}
use ml_gridengine_executor.OutputBuffer.New.{new_buffer-Represents}

module _ (H : PairingHeap) (malloc : ℕ → List ℕ) where
  open H use {items}

  pub initial-IsSound :
      (size initial_size : ℕ)
      → Allocates malloc
      → 1 ≤ size
      → size ≤ 2 ^ 63
      → 1 ≤ initial_size
      → IsSound H malloc (initial H malloc size initial_size)
  unfolding new_buffer
  initial-IsSound size initial_size alloc pos small pos' = record {
    still_holds = holds H (new_buffer-Represents H malloc size initial_size alloc pos small pos');
    named = λ k x e. absurd (cc e);
    each = λ k x e. absurd (cc e);
    emptied = λ e. H.items-empty;
  }

  Step-IsSound :
      {s t : System H malloc}
      → Allocates malloc
      → Step H malloc s t
      → IsSound H malloc s
      → IsSound H malloc t
  Step-IsSound {s} alloc (writes bytes b in_range e) sound =
      let open_b = write_open_only H malloc s.buffer b bytes e in
      let (b', e', w) = write-Wrote H malloc alloc bytes sound.still_holds in_range open_b in
      let q : ok b' ≡ ok b = sym e' ∙ e in
      let p : b' ≡ b = cc q in
      writes-IsSound H malloc s sound b bytes open_b
        (subst (λ y. Wrote H malloc s.buffer y s.history bytes) p w)
  Step-IsSound alloc (reads id begin count r bytes e) sound = sound
  Step-IsSound {s} alloc (starts_waiting id begin count x b range idle fresh e) sound =
      let (p, q, late, open_b) =
        read-waits_inv H s.buffer b s.history id begin count x sound.still_holds range e in
      subst (λ y. IsSound H malloc (record s { buffer = y; calls = set_call id (some x) s.calls }))
        (sym q)
        (subst
          (λ y. IsSound H malloc (record s {
            buffer = enqueue H s.buffer (request H s.buffer id begin count);
            calls = set_call id (some y) s.calls;
          }))
          (sym p)
          (queued-IsSound H malloc s sound (request H s.buffer id begin count) late open_b idle
            fresh))
  Step-IsSound {s} alloc (wakes x e signalled) sound = wakes-IsSound H malloc s x sound
  Step-IsSound {s} alloc (times_out x e) sound = times_out-IsSound H malloc s sound x e
  Step-IsSound {s} alloc (closes b e) sound = closes-IsSound H malloc s sound b e

  pub Reach-IsSound :
      {s t : System H malloc}
      → Allocates malloc
      → Reach H malloc s t
      → IsSound H malloc s
      → IsSound H malloc t
  Reach-IsSound alloc here sound = sound
  Reach-IsSound alloc (next r step) sound = Step-IsSound alloc step (Reach-IsSound alloc r sound)

  module _ (size initial_size : ℕ) (alloc : Allocates malloc) (pos : 1 ≤ size)
      (small : size ≤ 2 ^ 63) (pos' : 1 ≤ initial_size) {s : System H malloc}
      (r : Reach H malloc (initial H malloc size initial_size) s) where
    sound : IsSound H malloc s
    sound = Reach-IsSound alloc r (initial-IsSound size initial_size alloc pos small pos')

    -- With a malloc that allocates, a maximum capacity from 1 to 2^63, an initial capacity of
    -- at least 1 and fewer than 2^63 bytes written: in every state that a new buffer, its writer
    -- and its readers reach, other calls having timed out before or after their answers, a call
    -- that still waits and has been signalled finds as its answer, which it returns unless its own
    -- wait times out first, either exactly what it is owed of the bytes that some write had
    -- completed, those reaching past its position, or Closed, and then the buffer is closed and
    -- its position was never reached.
    pub woken_answers :
        (x : ReadRequest)
        → s.calls x.id ≡ some x
        → (s.buffer.readers.requests x.id).signalled ≡ true
        → ((n : ℕ) × (x.begin < n)
            × (n ≤ length s.history)
            × (wake H s.buffer x ≡ owed (take n s.history) x))
          ⊎ (((wake H s.buffer x).0 ≡ closed)
              × (s.buffer.is_closed ≡ true)
              × (length s.history ≤ x.begin))
    woken_answers x e signalled = elim (sound.each x.id x e) [
      | inl v ↦ absurd (ground (arith, v.unsignalled, signalled))
      | inr (inl a) ↦ inl (a.then_written, a.reached, a.written, a.answer)
      | inr (inr d) ↦ inr (d.answer, d.is_shut, d.unreached)
    ]

    -- No wake-up is lost. With a malloc that allocates, a maximum capacity from 1 to 2^63, an
    -- initial capacity of at least 1 and fewer than 2^63 bytes written: in every state that a new
    -- buffer, its writer and its readers reach, other calls having timed out before or after their
    -- answers, each call that still waits and whose position has been written, and each one if the
    -- buffer is closed, has been signalled.
    pub no_lost_wakeup :
        (x : ReadRequest)
        → s.calls x.id ≡ some x
        → (x.begin < length s.history) ⊎ (s.buffer.is_closed ≡ true)
        → (s.buffer.readers.requests x.id).signalled ≡ true
    no_lost_wakeup x e due = elim (sound.each x.id x e) [
      | inl v ↦ elim due [
        | inl lt ↦ absurd (omega (arith, lt, sound.still_holds.late x v.member))
        | inr c ↦ absurd (not-mem-nil (subst (Mem x) (sound.emptied c) v.member))
      ]
      | inr (inl a) ↦ a.signalled
      | inr (inr d) ↦ d.signalled
    ]

  shut_or_open :
      {s : System H malloc}
      → IsSound H malloc s
      → (b : OutputBuffer H) × (close H s.buffer ≡ some b) × (b.is_closed ≡ true)
  shut_or_open {s} sound = elim (Bool-cases s.buffer.is_closed) [
    | inl t ↦ (s.buffer, close_again H s.buffer t, t)
    | inr t ↦
        let (b, e, c) = close-Holds H s.buffer s.history sound.still_holds t in (b, e, c.is_shut)
  ]

  -- Nobody waits forever on a buffer that is closed. With a malloc that allocates, a maximum
  -- capacity from 1 to 2^63, an initial capacity of at least 1 and fewer than 2^63 bytes written:
  -- in every state that a new buffer, its writer and its readers reach, other calls having timed
  -- out before or after their answers, a `close` ends without a fault, and in the state it leaves
  -- every call that waits has been signalled.
  pub close_ends_waits :
      (size initial_size : ℕ)
      → Allocates malloc
      → 1 ≤ size
      → size ≤ 2 ^ 63
      → 1 ≤ initial_size
      → {s : System H malloc} → Reach H malloc (initial H malloc size initial_size) s
      → (b : OutputBuffer H) × (close H s.buffer ≡ some b)
        × ((x : ReadRequest) → s.calls x.id ≡ some x → (b.readers.requests x.id).signalled ≡ true)
  close_ends_waits size initial_size alloc pos small pos' {s} r =
      let (b, e, shut_b) =
        shut_or_open
          (Reach-IsSound alloc r (initial-IsSound size initial_size alloc pos small pos')) in
      (
        b,
        e,
        λ x called.
            no_lost_wakeup size initial_size alloc pos small pos' (next r (closes b e)) x called
              (inr shut_b),
      )
