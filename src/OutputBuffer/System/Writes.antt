-- ===== src/OutputBuffer/System/Writes.antt =====
-- A write keeps what holds of an output buffer and its readers (src/OutputBuffer.cpp).
use ml_gridengine_executor.Base.{
  ℕ, zero, suc, ◌+◌, ◌≤◌, ◌≡◌, ◌⊎◌, inl, inr, refl, ap, sym, ◌∙◌, List, [], ◌∷◌, ◌++◌, false, arith,
  ltb_cases, Bool-cases, length, length-append, take, take_all,
}
use ml_gridengine_executor.Result.{Result, ok, throws, fault, illegal_state}
use ml_gridengine_executor.Heap.{ReadRequest, PairingHeap}
use ml_gridengine_executor.Readers.Weigh.{has_id}
use ml_gridengine_executor.Readers.Members.{same, not_reached, mem-keeps}
use ml_gridengine_executor.Readers.Reached.{reached-le, from-le}
use ml_gridengine_executor.OutputBuffer.{OutputBuffer, write}
use ml_gridengine_executor.OutputBuffer.Write.{owed, Wrote}
use ml_gridengine_executor.OutputBuffer.System.{System}
use ml_gridengine_executor.OutputBuffer.System.Invariant.{
  Waiting, Answered, Ended, IsSound, same-wake,
}

abbrev pub value_or {ℓ} : {A : Type ℓ} → A → Result A → A
value_or a (ok b) = b
value_or a (throws e) = a
value_or a fault = a

take_prefix : (n : ℕ) (xs ys : List ℕ) → n ≤ length xs → take n (xs ++ ys) ≡ take n xs
take_prefix zero xs ys h = refl
take_prefix (suc n) [] ys h = absurd (omega arith)
take_prefix (suc n) (x ∷ xs) ys h = ap (λ l. x ∷ l) (take_prefix n xs ys (omega arith))

module _ (H : PairingHeap) (malloc : ℕ → List ℕ) where
  open H use {items}

  -- A write that succeeds is to an open buffer.
  pub write_open_only :
      (b b' : OutputBuffer H) (bytes : List ℕ)
      → write H malloc b bytes ≡ ok b'
      → b.is_closed ≡ false
  unfolding write
  write_open_only b b' bytes e = elim (Bool-cases b.is_closed) [
    | inl c ↦ absurd (let bad : throws illegal_state ≡ ok b' = rw c at e in cc bad)
    | inr c ↦ c
  ]

  module _ (s : System H malloc) (sound : IsSound H malloc s) (b : OutputBuffer H) (bytes : List ℕ)
      (open_b : s.buffer.is_closed ≡ false) (w : Wrote H malloc s.buffer b s.history bytes) where
    abbrev s' : System H malloc
    s' = record s { buffer = b; history = s.history ++ bytes }

    total : length (s.history ++ bytes) ≡ length s.history + length bytes
    total = length-append s.history bytes

    writes-Waiting :
        (x : ReadRequest)
        → Waiting H malloc s x
        → Waiting H malloc s' x ⊎ (Answered H malloc s' x ⊎ Ended H malloc s' x)
    writes-Waiting x v = elim (ltb_cases x.begin (length s.history + length bytes)) [
      | inl (t, lt) ↦
          let (answer, signalled) = w.wakes x v.member lt v.active in
          inr (
            inl (record {
              gone = w.removes x v.member lt;
              signalled = signalled;
              then_written = length (s.history ++ bytes);
              reached = omega (arith, total, lt);
              written = omega arith;
              answer =
                  answer
                  ∙ ap (λ l. owed l x)
                      (sym (
                        take_all (length (s.history ++ bytes)) (s.history ++ bytes) (omega arith)));
            }))
      | inr (t, ge) ↦
          let same_state : b.readers.requests x.id ≡ s.buffer.readers.requests x.id =
            w.leaves x.id (
              not_reached (length s.history + length bytes) x _ sound.still_holds.distinct v.member
                ge) in
          inl (record {
            member =
                mem-keeps (length s.history + length bytes) x _ _ v.member ge
                  (w.keeps_others (same x));
            active = ap (λ st. st.cancelled) same_state ∙ v.active;
            unsignalled = ap (λ st. st.signalled) same_state ∙ v.unsignalled;
          })
    ]

    writes-Answered : (x : ReadRequest) → Answered H malloc s x → Answered H malloc s' x
    writes-Answered x a =
        let same_state : b.readers.requests x.id ≡ s.buffer.readers.requests x.id = w.leaves x.id (
          omega (
            arith,
            a.gone,
            reached-le (length s.history + length bytes) x.id (items s.buffer.readers.heap),
          )) in
        record {
          gone = omega (
            arith,
            a.gone,
            w.keeps_others (has_id x.id),
            from-le (length s.history + length bytes) (has_id x.id) (items s.buffer.readers.heap),
          );
          signalled = ap (λ st. st.signalled) same_state ∙ a.signalled;
          then_written = a.then_written;
          reached = a.reached;
          written = omega (arith, total, a.written);
          answer =
              same-wake H malloc s.buffer b x same_state
              ∙ a.answer
              ∙ ap (λ l. owed l x) (sym (take_prefix a.then_written s.history bytes a.written));
        }

    pub writes-IsSound : IsSound H malloc s'
    writes-IsSound = record {
      still_holds = w.still_holds;
      named = sound.named;
      each = λ k x e. elim (sound.each k x e) [
        | inl v ↦ writes-Waiting x v
        | inr (inl a) ↦ inr (inl (writes-Answered x a))
        | inr (inr d) ↦ absurd (ground (arith, d.is_shut, open_b))
      ];
      emptied = λ e. absurd (ground (arith, e, w.still_open));
    }
