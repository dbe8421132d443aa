-- ===== src/Sizes/Trim.antt =====
-- What `formatFileSize` (src/Utils.cpp) leaves of a printed number.
use mathlib.Core.Option
use ml_gridengine_executor.Base.{
  ℕ, zero, suc, ◌+◌, ◌-◌, ◌≤◌, ◌<◌, ◌≡◌, ◌⊎◌, inl, inr, refl, ap, sym, ◌∙◌, List, [], ◌∷◌, ◌++◌,
  true, false, ◌&&◌, Option, none, some, arith, ltb, ltb_cases, ◌==◌, ==_iff, Bool-cases,
  if◌then◌else◌, length, take, get_elem?,
}
use ml_gridengine_executor.Sizes.{find, is_at, skip_zeros, format_file_size}

find-lt : (c : ℕ) (s : List ℕ) (i : ℕ) → find c s ≡ some i → i < length s
unfolding find
find-lt c [] i e = ground (arith, e)
find-lt c (x ∷ xs) i e = elim (Bool-cases (x == c)) [
  | inl t ↦ let z : some 0 ≡ some i = rw t at e in ground (arith, z)
  | inr t ↦ later (find c xs) (find-lt c xs) (rw t at e)
]
  where
    later :
        (o : Option ℕ)
        → ((j : ℕ) → o ≡ some j → j < length xs)
        → Option.map (λ j. suc j) o ≡ some i
        → i < suc (length xs)
    later none ih e' = ground (arith, e')
    later (some j) ih e' = let lt : j < length xs = ih j refl in ground (arith, e', lt)

-- What the loop has passed over, from `pos` down to `e`.
record Skipped (s : List ℕ) (dot_pos pos e : ℕ) : Type 0 where
  below : e ≤ pos
  above : dot_pos ≤ e
  zeros : (i : ℕ) → e < i → i ≤ pos → is_at b'0' (get_elem? s i) ≡ true
  ends : (e ≡ dot_pos) ⊎ (is_at b'0' (get_elem? s e) ≡ false)

skip_zeros-Skipped :
    (s : List ℕ) (dot_pos pos : ℕ)
    → dot_pos ≤ pos
    → Skipped s dot_pos pos (skip_zeros s dot_pos pos)
unfolding skip_zeros
skip_zeros-Skipped s dot_pos zero h = record {
  below = omega arith;
  above = h;
  zeros = λ i l m. absurd (omega (arith, l, m));
  ends = inl (omega (arith, h));
}
skip_zeros-Skipped s dot_pos (suc pos) h =
    elim (Bool-cases (ltb dot_pos (suc pos) && is_at b'0' (get_elem? s (suc pos)))) [
      | inl c ↦
          let ih : Skipped s dot_pos pos (skip_zeros s dot_pos pos) =
            skip_zeros-Skipped s dot_pos pos (ground (arith, c)) in
          rw c (record {
            below = omega (arith, ih.below);
            above = ih.above;
            zeros = λ i l m. elim (ltb_cases i (suc pos)) [
              | inl (t, lt) ↦ ih.zeros i l (omega (arith, lt))
              | inr (t, ge) ↦
                  let same : suc pos ≡ i = omega (arith, ge, m) in
                  ap (λ j. is_at b'0' (get_elem? s j)) (sym same) ∙ ground (arith, c)
            ];
            ends = ih.ends;
          })
      | inr c ↦ rw c (record {
        below = omega arith;
        above = h;
        zeros = λ i l m. absurd (omega (arith, l, m));
        ends = elim (ltb_cases dot_pos (suc pos)) [
          | inl (t, lt) ↦ inr (ground (arith, c, t))
          | inr (t, ge) ↦ inl (omega (arith, ge, h))
        ];
      })
    ]

-- What is kept of a printed number, `n` bytes: all but the zeros at the end behind the point, and not the
-- point if nothing is left behind it.
pub record Trimmed (s : List ℕ) (dot_pos n : ℕ) : Type 0 where
  pub whole : dot_pos ≤ n
  pub within : n ≤ length s
  pub zeros : (i : ℕ) → n ≤ i → dot_pos < i → i < length s → is_at b'0' (get_elem? s i) ≡ true
  pub ends : (n ≡ dot_pos) ⊎ ((dot_pos + 1 < n) × (is_at b'0' (get_elem? s (n - 1)) ≡ false))

kept-Trimmed :
    (s : List ℕ) (dot_pos pos : ℕ)
    → dot_pos < length s
    → Skipped s dot_pos (length s - 1) pos
    → Trimmed s dot_pos (if pos == dot_pos then pos else pos + 1)
kept-Trimmed s dot_pos pos h k = elim (Bool-cases (pos == dot_pos)) [
  | inl t ↦
      let same : pos ≡ dot_pos = ground (arith, ==_iff pos dot_pos, t) in
      rw t (record {
        whole = k.above;
        within = omega (arith, same);
        zeros = λ i l m r. k.zeros i (omega (arith, m, same)) (omega (arith, r));
        ends = inl same;
      })
  | inr t ↦
      let more : dot_pos < pos = ground (arith, ==_iff pos dot_pos, t, k.above) in
      rw t (record {
        whole = omega (arith, more);
        within = omega (arith, k.below, h);
        zeros = λ i l m r. k.zeros i (omega (arith, l)) (omega (arith, r));
        ends = elim k.ends [
          | inl e ↦ absurd (omega (arith, e, more))
          | inr e ↦ inr (
            omega (arith, more),
            ap (λ j. is_at b'0' (get_elem? s j)) {x = pos + 1 - 1} {y = pos} (omega arith) ∙ e,
          )
        ];
      })
]

-- Of a number printed with a decimal point, `formatFileSize` keeps all but the zeros at the end of its
-- decimals, and leaves out the point too if they all are zeros; then comes the unit.
pub format_file_size-Trimmed :
    (s unit : List ℕ) (dot_pos : ℕ)
    → find b'.' s ≡ some dot_pos
    → (n : ℕ) × (format_file_size s unit ≡ take n s ++ unit) × Trimmed s dot_pos n
unfolding format_file_size
format_file_size-Trimmed s unit dot_pos e =
    let lt : dot_pos < length s = find-lt b'.' s dot_pos e in
    let pos : ℕ = skip_zeros s dot_pos (length s - 1) in
    (
      (if pos == dot_pos then pos else pos + 1),
      rw (format_file_size, e) refl,
      kept-Trimmed s dot_pos pos lt
          (skip_zeros-Skipped s dot_pos (length s - 1) (omega (arith, lt))),
    )
