-- ===== src/OutputBuffer/Read.antt =====
-- `_tryRead`, `tryRead` and `translateNegativeBegin` (src/OutputBuffer.cpp, src/OutputBuffer.h).
use ml_gridengine_executor.Base.{
  ℕ, suc, ◌+◌, ◌-◌, ◌^◌, ◌<◌, ◌≡◌, refl, ap, ◌∙◌, List, some, arith, max, leb, ltb-true, ltb-false,
  ltb_cases, inl, inr, if◌then◌else◌, ◌>>=◌, length, take, drop, drop-drop, add64_lem, sub64_lem,
  add64, sub64, ℤ, pos, negsuc, IsSsize, word,
}
use ml_gridengine_executor.ReadResult.{ReadResult, result}
use ml_gridengine_executor.Ring.{Ring, circular_read}
use ml_gridengine_executor.Ring.Read.{circular_read-contents}
use ml_gridengine_executor.Heap.{PairingHeap}
use ml_gridengine_executor.OutputBuffer.{OutputBuffer, try_read, translate_negative_begin}
use ml_gridengine_executor.OutputBuffer.Spec.{piece, read_spec, Keeps, size-Keeps}

-- A position that is not negative stands for itself; a negative one counts back from the end of what
-- was written, but not past the start.
abbrev pub position : ℕ → ℤ → ℕ
position written (pos n) = n
position written (negsuc n) = written - suc n

-- For a `begin` in the range of `ssize_t` and fewer than 2 ^ 63 bytes written,
-- `translateNegativeBegin` gives that position.
pub translate_negative_begin-position :
    (written : ℕ) (begin : ℤ)
    → written < 2 ^ 63
    → IsSsize begin
    → translate_negative_begin written begin ≡ position written begin
unfolding translate_negative_begin
translate_negative_begin-position written (pos n) h k = omega arith
translate_negative_begin-position written (negsuc n) h k = ground arith

-- Where `_tryRead` starts in the bytes kept.
skipped :
    (oldest begin lost : ℕ)
    → oldest ≡ lost
    → begin < word
    → (if leb begin oldest then 0 else sub64 begin oldest) ≡ max begin lost - lost
skipped oldest begin lost e h = ground (arith, sub64_lem begin oldest)

module _ {r : Ring} {history : List ℕ} (k : Keeps r history) (count : ℕ) where
  -- The bytes kept from `start` on, as a piece of the history.
  circular_read-piece :
      (start : ℕ)
      → circular_read r count start
        ≡ some (piece history (length history - r.max_capacity + start) count)
  circular_read-piece start =
      circular_read-contents count start k.valid
      ∙ ap (λ l. some (take count (drop start l))) k.last
      ∙ ap (λ l. some (take count l)) (drop-drop start (length history - r.max_capacity) history)

  abbrev lost : ℕ
  lost = length history - r.max_capacity

  -- The branch of `_tryRead` that copies.
  copy-piece :
      (oldest start begin : ℕ)
      → oldest ≡ lost
      → start ≡ max begin lost - lost
      → begin < length history
      → ◌>>=◌ {B = ReadResult × List ℕ}
          (circular_read r count start)
          (λ bytes. some (result (add64 oldest start) (length bytes), bytes))
        ≡ some (
          result (max begin lost) (length (piece history (max begin lost) count)),
          piece history (max begin lost) count,
        )
  copy-piece oldest start begin e e' h =
      let first : lost + start ≡ max begin lost = omega arith in
      let sum : add64 oldest start ≡ max begin lost =
        omega (arith, add64_lem oldest start, k.in_range) in
      rw (circular_read-piece start, sum, first) refl

module _ (H : PairingHeap) where
  -- In a buffer that keeps a history, `_tryRead` does not fault, and gives what the history
  -- holds: the bytes at the position, or the oldest ones still kept; nothing but Closed or
  -- Timeout past the end.
  pub try_read-read_spec :
      (b : OutputBuffer H) (history : List ℕ) (begin count : ℕ)
      → Keeps b.ring history
      → try_read H b begin count
        ≡ some (read_spec b.is_closed b.ring.max_capacity history begin count)
  unfolding try_read read_spec
  try_read-read_spec b history begin count k = elim (ltb_cases begin b.ring.written_bytes) [
    | inl (t, lt) ↦
        let lt' : begin < length history = omega (arith, k.written) in
        let oldest : sub64 b.ring.written_bytes b.ring.size ≡ length history - b.ring.max_capacity =
          omega (
            arith,
            sub64_lem b.ring.written_bytes b.ring.size,
            size-Keeps k,
            k.written,
            k.in_range,
          ) in
        rw (t, ltb-true begin (length history) lt')
          (copy-piece k count (sub64 b.ring.written_bytes b.ring.size) _ begin oldest
            (skipped (sub64 b.ring.written_bytes b.ring.size) begin
              (length history - b.ring.max_capacity) oldest (omega (arith, k.in_range)))
            lt')
    | inr (t, ge) ↦
        rw (t, ltb-false begin (length history) (omega (arith, k.written))) (ground arith)
  ]
