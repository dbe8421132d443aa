-- ===== src/SaveOutput/Loop.antt =====
-- What the loop that saves the output (src/main.cpp) writes to the file.
use mathlib.Core.Option
use ml_gridengine_executor.Base.{
  ℕ, zero, suc, ◌+◌, ◌-◌, ◌^◌, ◌≤◌, ◌<◌, ◌≡◌, refl, sym, ap, ◌∙◌, List, [], ◌∷◌, ◌++◌, true, none,
  some, arith, min, max, ltb, ltb_cases, inl, inr, if◌then◌else◌, ◌>>=◌, length, take, drop,
  take_last, length-take, length-drop, drop-drop, drop_all, pos, of_word, of_word_small, add64,
  add64_lem, sub64_lem, sub64,
}
use ml_gridengine_executor.ReadResult.{result, closed}
use ml_gridengine_executor.Heap.{ReadRequest, PairingHeap}
use ml_gridengine_executor.OutputBuffer.{OutputBuffer, Reading, returns, waits, read, enqueue}
use ml_gridengine_executor.OutputBuffer.Spec.{piece, read_spec, Keeps, size-Keeps}
use ml_gridengine_executor.OutputBuffer.Wait.{Reads, read-Reads}
use ml_gridengine_executor.SaveOutput.{discarded, save_reading, save_loop}

take-append-rest : (n : ℕ) (xs : List ℕ) → take n xs ++ drop (length (take n xs)) xs ≡ xs
take-append-rest zero xs = refl
take-append-rest (suc n) [] = refl
take-append-rest (suc n) (x ∷ xs) = ap (λ l. x ∷ l) (take-append-rest n xs)

module _ (H : PairingHeap) (b : OutputBuffer H) (history : List ℕ) (size : ℕ) where
  -- What a read on the closed buffer returns.
  abbrev shut_reading : ℕ → Reading H
  shut_reading begin =
      let first : ℕ = max begin (length history - b.ring.max_capacity) in
      if ltb begin (length history)
      then returns (result first (length (piece history first size))) (piece history first size)
      else returns closed []

  Reads-shut :
      (begin : ℕ)
      → b.is_closed ≡ true
      → Reads H b history (record { id = 0; begin = begin; count = size }) ≡ shut_reading begin
  unfolding read_spec
  Reads-shut begin shut =
      let x : ReadRequest = record { id = 0; begin = begin; count = size } in
      ap
        (λ c.
          if (read_spec c b.ring.max_capacity history begin size).0.is_timeout
          then waits x (enqueue H b x)
          else returns (read_spec c b.ring.max_capacity history begin size).0
              (read_spec c b.ring.max_capacity history begin size).1)
        shut
      ∙ elim (ltb_cases begin (length history)) [ inl (t, _) ↦ rw t refl | inr (t, _) ↦ rw t refl ]

  read_shut :
      (begin : ℕ)
      → Keeps b.ring history
      → b.is_closed ≡ true
      → begin < 2 ^ 63
      → read H b 0 (of_word begin) size ≡ some (shut_reading begin)
  read_shut begin k shut h =
      ap (λ z. read H b 0 z size) (of_word_small begin h)
      ∙ read-Reads H b history 0 (pos begin) size k h
      ∙ ap some (Reads-shut begin shut)

  -- A piece and what follows it.
  piece-append :
      (first next : ℕ)
      → first + length (piece history first size) ≡ next
      → piece history first size ++ drop next history ≡ drop first history
  piece-append first next e =
      ap (λ l. piece history first size ++ l)
        (ap (λ m. drop m history) {x = next} {y = first + length (piece history first size)} (sym e)
          ∙ sym (drop-drop (length (piece history first size)) first history))
      ∙ take-append-rest size (drop first history)

  module _ (k : Keeps b.ring history) (shut : b.is_closed ≡ true) (some_size : 1 ≤ size) where
    step :
        (fuel begin : ℕ)
        → begin < length history
        → length history - begin < suc fuel
        → ((next : ℕ)
            → next < 2 ^ 63
            → length history - next < fuel
            → save_loop H fuel b size next
              ≡ some (drop (max next (length history - b.ring.max_capacity)) history))
        → Option.map
            (λ more. piece history (max begin (length history - b.ring.max_capacity)) size ++ more)
            (save_loop H fuel b size (
              add64
                (max begin (length history - b.ring.max_capacity))
                (length (piece history (max begin (length history - b.ring.max_capacity)) size))))
          ≡ some (drop (max begin (length history - b.ring.max_capacity)) history)
    step fuel begin l lt ih =
        let lost : ℕ = length history - b.ring.max_capacity in
        let first : ℕ = max begin lost in
        let n : ℕ = length (piece history first size) in
        let next : ℕ = add64 first n in
        let room : 1 ≤ b.ring.max_capacity = omega (arith, k.valid.positive, k.valid.bounded) in
        let taken : n ≡ min size (length history - first) =
          omega (arith, length-take size (drop first history), length-drop first history) in
        let sum : next ≡ first + n = omega (arith, add64_lem first n, k.in_range) in
        let same : max next lost ≡ next = omega arith in
        ap (Option.map (λ more. piece history first size ++ more))
          (ih next (omega (arith, k.in_range)) (omega arith) ∙ ap (λ m. some (drop m history)) same)
        ∙ ap some (piece-append first next (sym sum))

    save_loop-rest :
        (fuel begin : ℕ)
        → begin < 2 ^ 63
        → length history - begin < fuel
        → save_loop H fuel b size begin
          ≡ some (drop (max begin (length history - b.ring.max_capacity)) history)
    unfolding save_loop save_reading
    save_loop-rest zero begin h lt = absurd (omega arith)
    save_loop-rest (suc fuel) begin h lt = elim (ltb_cases begin (length history)) [
      | inl (e, l) ↦
          rw (read_shut begin k shut h, ◌>>=◌, e) (step fuel begin l lt (save_loop-rest fuel))
      | inr (e, g) ↦
          rw (read_shut begin k shut h, ◌>>=◌, e)
            (ap some (
              sym (
                drop_all (max begin (length history - b.ring.max_capacity)) history (omega arith))))
    ]

    -- On a closed buffer that keeps a history, with a chunk size of at least one and one more
    -- step than the bytes that were written, the loop ends and has saved the last `_maxCapacity`
    -- bytes of the history; the first line tells how many are missing, if any are.
    pub save_loop-take_last :
        (save_loop H (suc (length history)) b size 0 ≡ some (take_last b.ring.max_capacity history))
        × (discarded b ≡ (
            if ltb b.ring.max_capacity (length history)
            then some (length history - b.ring.max_capacity)
            else none))
    unfolding discarded
    save_loop-take_last = (
      save_loop-rest (suc (length history)) 0 (omega arith) (omega arith)
          ∙ ap (λ m. some (drop m history)) (omega arith),
      ground (
        arith,
        size-Keeps k,
        k.written,
        k.in_range,
        sub64_lem b.ring.written_bytes b.ring.size,
        ap some {x = sub64 b.ring.written_bytes b.ring.size}
            {y = length history - b.ring.max_capacity},
      ),
    )
