-- ===== src/OutputBuffer/System/Invariant.antt =====
-- What holds of an output buffer and its readers after each step (src/OutputBuffer.cpp).
use mathlib.Core.List.{Mem}
use ml_gridengine_executor.Base.{
  ℕ, ◌≤◌, ◌<◌, ◌≡◌, ◌⊎◌, inl, inr, ap, List, [], true, false, Option, none, some, arith, ◌==◌,
  ==_iff, Bool-cases, length, take,
}
use ml_gridengine_executor.ReadResult.{closed}
use ml_gridengine_executor.Heap.{ReadRequest, PairingHeap}
use ml_gridengine_executor.Readers.Weigh.{weigh, has_id}
use ml_gridengine_executor.OutputBuffer.{OutputBuffer, wake}
use ml_gridengine_executor.OutputBuffer.Spec.{Holds}
use ml_gridengine_executor.OutputBuffer.Write.{owed}
use ml_gridengine_executor.OutputBuffer.System.{System, set_call}

pub unequal : (k : ℕ) (j : ℕ) → (j ≡ k → ⊥) → (j == k) ≡ false
unequal k j h = elim (Bool-cases (j == k)) [
  | inl c ↦ absurd (h (ground (arith, ==_iff j k, c)))
  | inr c ↦ c
]

module _ (H : PairingHeap) (malloc : ℕ → List ℕ) where
  open H use {items}

  -- A call that waits, and has not been answered.
  pub record Waiting (s : System H malloc) (x : ReadRequest) : Type 0 where
    pub member : Mem x (items s.buffer.readers.heap)
    pub active : (s.buffer.readers.requests x.id).cancelled ≡ false
    pub unsignalled : (s.buffer.readers.requests x.id).signalled ≡ false

  -- A call that has been answered with what it is owed, `n` bytes having been written by then.
  pub record Answered (s : System H malloc) (x : ReadRequest) : Type 0 where
    pub gone : weigh (has_id x.id) (items s.buffer.readers.heap) ≡ 0
    pub signalled : (s.buffer.readers.requests x.id).signalled ≡ true
    pub then_written : ℕ
    pub reached : x.begin < then_written
    pub written : then_written ≤ length s.history
    pub answer : wake H s.buffer x ≡ owed (take then_written s.history) x

  -- A call that has been told that the buffer is closed before its position was reached.
  pub record Ended (s : System H malloc) (x : ReadRequest) : Type 0 where
    pub signalled : (s.buffer.readers.requests x.id).signalled ≡ true
    pub answer : (wake H s.buffer x).0 ≡ closed
    pub is_shut : s.buffer.is_closed ≡ true
    pub unreached : length s.history ≤ x.begin

  abbrev pub Stands : System H malloc → ReadRequest → Type 0
  Stands s x = Waiting s x ⊎ (Answered s x ⊎ Ended s x)

  pub record IsSound (s : System H malloc) : Type 0 where
    pub still_holds : Holds H s.buffer s.history
    pub named : (k : ℕ) (x : ReadRequest) → s.calls k ≡ some x → x.id ≡ k
    pub each : (k : ℕ) (x : ReadRequest) → s.calls k ≡ some x → Stands s x
    pub emptied : s.buffer.is_closed ≡ true → items s.buffer.readers.heap ≡ []

  -- A call after its own has returned, or before.
  pub other_call :
      (k j : ℕ) (x : ReadRequest) (calls : ℕ → Option ReadRequest)
      → set_call k none calls j ≡ some x
      → ((j == k) ≡ false) × (calls j ≡ some x)
  other_call k j x calls e = elim (Bool-cases (j == k)) [
    | inl c ↦ absurd (let bad : none ≡ some x = rw c at e in cc bad)
    | inr c ↦ (c, rw c at e)
  ]

  -- What a call returns depends on the state of its request only.
  pub same-wake :
      (b b' : OutputBuffer H) (x : ReadRequest)
      → b'.readers.requests x.id ≡ b.readers.requests x.id
      → wake H b' x ≡ wake H b x
  unfolding wake
  same-wake b b' x e = ap (λ st. (st.result, st.target)) e
