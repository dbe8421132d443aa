-- ===== src/Sizes/Line.antt =====
-- Which line says how many bytes are missing (src/main.cpp).
use ml_gridengine_executor.Base.{
  ℕ, suc, ◌+◌, ◌-◌, ◌*◌, ◌≡◌, inl, inr, refl, ap, sym, ◌∙◌, List, [], ◌∷◌, ◌++◌, true, false, not,
  Option, none, some, arith, leb, leb_cases, leb-true, ◌==◌, if◌then◌else◌, length, length-append,
  take, get_elem?,
}
use ml_gridengine_executor.Floats.{over_2_pow}
use ml_gridengine_executor.Sizes.{
  Format, find, skip_zeros, format_file_size, format_size, has_large_unit, plain_line, sized_line,
  discarded_line,
}

get_elem?-last : (s : List ℕ) (x : ℕ) → get_elem? (s ++ (x ∷ [])) (length s) ≡ some x
get_elem?-last [] x = refl
get_elem?-last (y ∷ s) x = get_elem?-last s x

-- A text that ends with a unit.
has_large_unit-append :
    (s : List ℕ) (unit : ℕ) → has_large_unit (s ++ (unit ∷ [])) ≡ not (unit == b'B')
unfolding has_large_unit
has_large_unit-append s unit =
    let total : length (s ++ (unit ∷ [])) ≡ suc (length s) =
      length-append s (unit ∷ []) ∙ omega arith in
    let last : get_elem? (s ++ (unit ∷ [])) (suc (length s) - 1) ≡ some unit =
      ap (get_elem? (s ++ (unit ∷ []))) {x = suc (length s) - 1} {y = length s} (omega arith)
      ∙ get_elem?-last s unit in
    rw (total, last) (ground arith)

-- Whatever the printed number is, the unit comes last.
format_file_size-ends :
    (s unit : List ℕ) → (body : List ℕ) × (format_file_size s unit ≡ body ++ unit)
unfolding format_file_size
format_file_size-ends s unit = cases (find b'.' s)
  where
    cases :
        (o : Option ℕ)
        → (body : List ℕ) × ((elim o [
          | none ↦ s ++ unit
          | some dot_pos ↦
              let pos : ℕ = skip_zeros s dot_pos (length s - 1) in
              take (if pos == dot_pos then pos else pos + 1) s ++ unit
        ])
            ≡ body ++ unit)
    cases none = (s, refl)
    cases (some dot_pos) = (_, refl)

large :
    (s : List ℕ) (unit : ℕ)
    → (unit == b'B') ≡ false
    → has_large_unit (format_file_size s (unit ∷ [])) ≡ true
large s unit h =
    let (body, e) = format_file_size-ends s (unit ∷ []) in
    ap has_large_unit e ∙ has_large_unit-append body unit ∙ ap not h

abbrev printed : Format → ℕ → ℕ → List ℕ
printed f size k = f.two_decimals (over_2_pow k (f.to_double size))

format_size-large : (f : Format) (size : ℕ) → has_large_unit (format_size f size) ≡ leb 1000 size
unfolding format_size
format_size-large f size = elim (leb_cases (1000 * 1024 * 1024) size) [
  | inl (a, h) ↦
      rw (format_size, a)
        (large (printed f size 30) b'G' refl ∙ sym (leb-true 1000 size (omega (arith, h))))
  | inr (a, h) ↦ elim (leb_cases (1000 * 1024) size) [
    | inl (b, k) ↦
        rw (format_size, a, b)
          (large (printed f size 20) b'M' refl ∙ sym (leb-true 1000 size (omega (arith, k))))
    | inr (b, k) ↦ elim (leb_cases 1000 size) [
      | inl (c, l) ↦ rw (format_size, a, b, c) (large (printed f size 10) b'K' refl)
      | inr (c, l) ↦ rw (format_size, a, b, c) (has_large_unit-append (f.unsigned size) b'B')
    ]
  ]
]

-- The line about discarded bytes says their number, and the size in a larger unit as well exactly if
-- there are 1000 of them or more.
pub discarded_line-thousand :
    (f : Format) (size : ℕ)
    → discarded_line f size ≡ (
        if leb 1000 size
        then sized_line (f.unsigned size) (format_size f size)
        else plain_line (f.unsigned size))
unfolding discarded_line
discarded_line-thousand f size =
    ap
      (λ b.
        if b
        then sized_line (f.unsigned size) (format_size f size)
        else plain_line (f.unsigned size))
      (format_size-large f size)
