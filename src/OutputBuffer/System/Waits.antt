-- ===== src/OutputBuffer/System/Waits.antt =====
-- Calls of `read` that start to wait, and that return (src/OutputBuffer.cpp).
use mathlib.Core.List.{mem-cons}
use mathlib.Core.List.Perm
use mathlib.Core.Logic.Or
use ml_gridengine_executor.Base.{
  ℕ, ◌≤◌, ◌≡◌, inl, inr, refl, ap, sym, subst, ◌∙◌, List, true, false, Option, none, some, arith,
  if◌then◌else◌, ◌==◌, ==_iff, ltb, ltb_cases, Bool-cases, length, ℤ, IsSsize,
}
use ml_gridengine_executor.ReadResult.{ReadResult}
use ml_gridengine_executor.Heap.{ReadRequest, PairingHeap}
use ml_gridengine_executor.Readers.Weigh.{weigh, has_id, weigh-push}
use ml_gridengine_executor.OutputBuffer.{OutputBuffer, Reading, returns, waits, read, wake, enqueue}
use ml_gridengine_executor.OutputBuffer.Spec.{read_spec, Holds}
use ml_gridengine_executor.OutputBuffer.System.{System, set_call}
use ml_gridengine_executor.OutputBuffer.System.Invariant.{Stands, IsSound, other_call}
use ml_gridengine_executor.OutputBuffer.Wait.{request, Reads, read-Reads, enqueue-Holds}

-- A position that is not reached in an open buffer has nothing to read yet.
nothing_yet :
    (capacity : ℕ) (history : List ℕ) (position count : ℕ)
    → ltb position (length history) ≡ false
    → (read_spec false capacity history position count).0.is_timeout ≡ true
unfolding read_spec
nothing_yet capacity history position count t = rw t refl

module _ (H : PairingHeap) where
  waiting_request : ReadRequest → Option (Reading H) → ReadRequest
  waiting_request x (some (waits y b)) = y
  waiting_request x (some (returns r bytes)) = x
  waiting_request x none = x

  waiting_buffer : OutputBuffer H → Option (Reading H) → OutputBuffer H
  waiting_buffer b (some (waits y b')) = b'
  waiting_buffer b (some (returns r bytes)) = b
  waiting_buffer b none = b

  -- A call that waits was for a position that is not reached, in an open buffer.
  pub read-waits_inv :
      (b b' : OutputBuffer H) (history : List ℕ) (id : ℕ) (begin : ℤ) (count : ℕ) (x : ReadRequest)
      → Holds H b history
      → IsSsize begin
      → read H b id begin count ≡ some (waits x b')
      → (x ≡ request H b id begin count)
        × (b' ≡ enqueue H b (request H b id begin count))
        × (length history ≤ (request H b id begin count).begin)
        × (b.is_closed ≡ false)
  unfolding read_spec waiting_request waiting_buffer enqueue
  read-waits_inv b b' history id begin count x rep range e =
      let y : ReadRequest = request H b id begin count in
      let eq : some (Reads H b history y) ≡ some (waits x b') =
        sym (read-Reads H b history id begin count rep.keeps range) ∙ e in
      elim (ltb_cases y.begin (length history)) [
        | inl (t, lt) ↦ absurd (let bad = rw t at eq in cc bad)
        | inr (t, ge) ↦ elim (Bool-cases b.is_closed) [
          | inl c ↦ absurd (let bad = rw (t, c) at eq in cc bad)
          | inr c ↦
              let spec : ReadResult × List ℕ =
                read_spec b.is_closed b.ring.max_capacity history y.begin y.count in
              let late : spec.0.is_timeout ≡ true =
                ap (λ d. (read_spec d b.ring.max_capacity history y.begin y.count).0.is_timeout) c
                ∙ nothing_yet b.ring.max_capacity history y.begin y.count t in
              let good : some (waits y (enqueue H b y)) ≡ some (waits x b') =
                sym (
                  ap (λ d. some (if d then waits y (enqueue H b y) else returns spec.0 spec.1))
                    late)
                ∙ eq in
              (sym (ap (waiting_request y) good), sym (ap (waiting_buffer b) good), ge, c)
        ]
      ]

module _ (H : PairingHeap) (malloc : ℕ → List ℕ) where
  open H use {items}

  -- How a call stands does not depend on which others wait.
  recall :
      (s : System H malloc) (calls : ℕ → Option ReadRequest) (x : ReadRequest)
      → Stands H malloc s x
      → Stands H malloc (record s { calls = calls }) x
  recall s calls x (inl v) =
      inl (record { member = v.member; active = v.active; unsignalled = v.unsignalled })
  recall s calls x (inr (inl a)) = inr (
      inl (record {
        gone = a.gone;
        signalled = a.signalled;
        then_written = a.then_written;
        reached = a.reached;
        written = a.written;
        answer = a.answer;
      }))
  recall s calls x (inr (inr d)) = inr (
      inr (record {
        signalled = d.signalled;
        answer = d.answer;
        is_shut = d.is_shut;
        unreached = d.unreached;
      }))

  -- A call that returns leaves the others as they stand.
  pub wakes-IsSound :
      (s : System H malloc) (x : ReadRequest)
      → IsSound H malloc s
      → IsSound H malloc (record s { calls = set_call x.id none s.calls })
  wakes-IsSound s x sound = record {
    still_holds = sound.still_holds;
    named = λ k y e. sound.named k y (other_call H malloc x.id k y s.calls e).1;
    each = λ k y e.
        recall s (set_call x.id none s.calls) y
          (sound.each k y (other_call H malloc x.id k y s.calls e).1);
    emptied = sound.emptied;
  }

  module _ (s : System H malloc) (sound : IsSound H malloc s) (x : ReadRequest)
      (late : length s.history ≤ x.begin) (open_b : s.buffer.is_closed ≡ false)
      (idle : s.calls x.id ≡ none)
      (fresh : weigh (has_id x.id) (items s.buffer.readers.heap) ≡ 0) where
    abbrev queued : System H malloc
    queued = record s { buffer = enqueue H s.buffer x; calls = set_call x.id (some x) s.calls }

    itself : Stands H malloc queued x
    unfolding enqueue
    itself = inl (record {
      member = (Perm.mem_iff (H.items-push x s.buffer.readers.heap)).1 (mem-cons.1 (Or.inl refl));
      active = ground (arith, ==_iff x.id x.id);
      unsignalled = ground (arith, ==_iff x.id x.id);
    })

    another :
        (y : ReadRequest) → (y.id == x.id) ≡ false → Stands H malloc s y → Stands H malloc queued y
    unfolding enqueue wake
    another y c (inl v) = inl (record {
      member =
          (Perm.mem_iff (H.items-push x s.buffer.readers.heap)).1 (mem-cons.1 (Or.inr v.member));
      active = rw c v.active;
      unsignalled = rw c v.unsignalled;
    })
    another y c (inr (inl a)) =
        let not_it : has_id y.id x ≡ 0 = ground (arith, c) in
        inr (
          inl (record {
            gone =
                omega (arith, weigh-push H (has_id y.id) x s.buffer.readers.heap, a.gone, not_it);
            signalled = rw c a.signalled;
            then_written = a.then_written;
            reached = a.reached;
            written = a.written;
            answer = rw c a.answer;
          }))
    another y c (inr (inr d)) = absurd (ground (arith, d.is_shut, open_b))

    pub queued-IsSound : IsSound H malloc queued
    unfolding enqueue
    queued-IsSound = record {
      still_holds = enqueue-Holds H s.buffer s.history x sound.still_holds late fresh;
      named = λ k y e. elim (Bool-cases (k == x.id)) [
        | inl c ↦
            let q : some x ≡ some y = rw c at e in
            let p : x ≡ y = cc q in ground (arith, ap (λ z. z.id) p, ==_iff k x.id)
        | inr c ↦ sound.named k y (rw c at e)
      ];
      each = λ k y e. elim (Bool-cases (k == x.id)) [
        | inl c ↦
            let q : some x ≡ some y = rw c at e in
            let p : x ≡ y = cc q in subst (λ z. Stands H malloc queued z) p itself
        | inr c ↦
            let e' : s.calls k ≡ some y = rw c at e in
            another y (subst (λ j. (j == x.id) ≡ false) (sym (sound.named k y e')) c)
              (sound.each k y e')
      ];
      emptied = λ e. absurd (ground (arith, e, open_b));
    }
