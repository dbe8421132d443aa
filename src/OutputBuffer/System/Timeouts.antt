-- ===== src/OutputBuffer/System/Timeouts.antt =====
-- A call of `read` whose wait times out (src/OutputBuffer.cpp).
use ml_gridengine_executor.Base.{
  ℕ, ◌≤◌, ◌≡◌, refl, inl, inr, ap, sym, subst, ◌∙◌, List, [], ◌∷◌, false, none, some, arith, ◌==◌,
}
use ml_gridengine_executor.Heap.{ReadRequest, PairingHeap}
use ml_gridengine_executor.Readers.Weigh.{weigh, has_id}
use ml_gridengine_executor.Readers.{cancel}
use ml_gridengine_executor.Readers.Members.{mem-cancel, requests-cancel}
use ml_gridengine_executor.Readers.Counts.{cancel-le}
use ml_gridengine_executor.OutputBuffer.{time_out, wake}
use ml_gridengine_executor.OutputBuffer.System.{System, set_call}
use ml_gridengine_executor.OutputBuffer.System.Invariant.{Stands, IsSound, other_call}
use ml_gridengine_executor.OutputBuffer.Wait.{time_out-Holds}

none_left : (xs : List ReadRequest) → weigh (λ _. 1) xs ≤ 0 → xs ≡ []
none_left [] h = refl
none_left (x ∷ xs) h = absurd (omega (arith, h))

module _ (H : PairingHeap) (malloc : ℕ → List ℕ) where
  open H use {items}

  module _ (s : System H malloc) (sound : IsSound H malloc s) (x : ReadRequest)
      (called : s.calls x.id ≡ some x) where
    abbrev timed : System H malloc
    timed = record s { buffer = (time_out H s.buffer x).1; calls = set_call x.id none s.calls }

    others :
        (y : ReadRequest) → (y.id == x.id) ≡ false → Stands H malloc s y → Stands H malloc timed y
    unfolding time_out wake
    others y c (inl v) =
        let same_state = requests-cancel H x y.id s.buffer.readers c in
        inl (record {
          member = mem-cancel H x y s.buffer.readers v.member c v.active;
          active = ap (λ st. st.cancelled) same_state ∙ v.active;
          unsignalled = ap (λ st. st.signalled) same_state ∙ v.unsignalled;
        })
    others y c (inr (inl a)) =
        let same_state = requests-cancel H x y.id s.buffer.readers c in
        inr (
          inl (record {
            gone = omega (arith, cancel-le H (has_id y.id) x s.buffer.readers, a.gone);
            signalled = ap (λ st. st.signalled) same_state ∙ a.signalled;
            then_written = a.then_written;
            reached = a.reached;
            written = a.written;
            answer = ap (λ st. (st.result, st.target)) same_state ∙ a.answer;
          }))
    others y c (inr (inr d)) =
        let same_state = requests-cancel H x y.id s.buffer.readers c in
        inr (
          inr (record {
            signalled = ap (λ st. st.signalled) same_state ∙ d.signalled;
            answer = ap (λ st. st.result) same_state ∙ d.answer;
            is_shut = d.is_shut;
            unreached = d.unreached;
          }))

    pub times_out-IsSound : IsSound H malloc timed
    unfolding time_out
    times_out-IsSound = record {
      still_holds = time_out-Holds H s.buffer s.history x sound.still_holds;
      named = λ k y e. sound.named k y (other_call H malloc x.id k y s.calls e).1;
      each = λ k y e.
          let (c, e') = other_call H malloc x.id k y s.calls e in
          others y (subst (λ j. (j == x.id) ≡ false) (sym (sound.named k y e')) c)
            (sound.each k y e');
      emptied = λ e. none_left (items (cancel H x s.buffer.readers).heap) (
          omega (
            arith,
            cancel-le H (λ _. 1) x s.buffer.readers,
            ap (weigh (λ _. 1)) (sound.emptied e),
          ));
    }
