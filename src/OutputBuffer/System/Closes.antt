-- ===== src/OutputBuffer/System/Closes.antt =====
-- `close` keeps what holds of an output buffer and its readers (src/OutputBuffer.cpp).
use ml_gridengine_executor.Base.{
  ℕ, ◌≡◌, inl, inr, refl, ap, sym, subst, ◌∙◌, List, false, some, arith, Bool-cases,
}
use ml_gridengine_executor.Heap.{ReadRequest, PairingHeap}
use ml_gridengine_executor.Readers.Weigh.{weigh, has_id}
use ml_gridengine_executor.Readers.Members.{once}
use ml_gridengine_executor.OutputBuffer.{OutputBuffer, close, wake}
use ml_gridengine_executor.OutputBuffer.Spec.{holds}
use ml_gridengine_executor.OutputBuffer.System.{System}
use ml_gridengine_executor.OutputBuffer.System.Invariant.{Waiting, Answered, Stands, IsSound}
use ml_gridengine_executor.OutputBuffer.Close.{Shut, close-Holds, close_again}
use ml_gridengine_executor.Readers.Close.{shut}

module _ (H : PairingHeap) (malloc : ℕ → List ℕ) (s : System H malloc) (sound : IsSound H malloc s)
    (b : OutputBuffer H) where
  open H use {items}

  abbrev s' : System H malloc
  s' = record s { buffer = b }

  module _ (open_b : s.buffer.is_closed ≡ false) (c : Shut H s.buffer b s.history) where
    told :
        (x : ReadRequest)
        → Waiting H malloc s x
        → b.readers.requests x.id ≡ shut (s.buffer.readers.requests x.id)
    told x v =
        let one = once x (items s.buffer.readers.heap) sound.still_holds.distinct v.member in
        c.tells x.id ∙ rw one refl

    kept :
        (x : ReadRequest)
        → Answered H malloc s x
        → b.readers.requests x.id ≡ s.buffer.readers.requests x.id
    kept x a = c.tells x.id ∙ rw a.gone refl

    closed-Stands : (x : ReadRequest) → Stands H malloc s x → Stands H malloc s' x
    unfolding wake
    closed-Stands x (inl v) = inr (
        inr (record {
          signalled = ap (λ st. st.signalled) (told x v);
          answer = ap (λ st. st.result) (told x v);
          is_shut = c.is_shut;
          unreached = sound.still_holds.late x v.member;
        }))
    closed-Stands x (inr (inl a)) = inr (
        inl (record {
          gone = ap (weigh (has_id x.id)) c.none_wait;
          signalled = ap (λ st. st.signalled) (kept x a) ∙ a.signalled;
          then_written = a.then_written;
          reached = a.reached;
          written = a.written;
          answer = ap (λ st. (st.result, st.target)) (kept x a) ∙ a.answer;
        }))
    closed-Stands x (inr (inr d)) = absurd (ground (arith, d.is_shut, open_b))

    open-IsSound : IsSound H malloc s'
    open-IsSound = record {
      still_holds = holds H c.represents;
      named = sound.named;
      each = λ k x e. closed-Stands x (sound.each k x e);
      emptied = λ e. c.none_wait;
    }

  pub closes-IsSound : close H s.buffer ≡ some b → IsSound H malloc s'
  closes-IsSound e = elim (Bool-cases s.buffer.is_closed) [
    | inl t ↦
        let q : some s.buffer ≡ some b = sym (close_again H s.buffer t) ∙ e in
        let p : s.buffer ≡ b = cc q in
        subst (λ b'. IsSound H malloc (record s { buffer = b' })) p sound
    | inr t ↦
        let (b', e', c) = close-Holds H s.buffer s.history sound.still_holds t in
        let q : some b' ≡ some b = sym e' ∙ e in
        let p : b' ≡ b = cc q in open-IsSound t (subst (λ y. Shut H s.buffer y s.history) p c)
  ]
