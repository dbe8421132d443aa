-- ===== src/Sizes.antt =====
-- `Utils::formatSize` (src/Utils.cpp): how a size is printed, and the line about discarded bytes
-- (src/main.cpp). A text is a list of bytes. `Poco::format` and the conversion to `double` are parameters.
pub mod Trim
pub mod Line
use mathlib.Core.Option
use ml_gridengine_executor.Base.{
  ℕ, zero, suc, ◌+◌, ◌-◌, ◌*◌, List, [], ◌∷◌, ◌++◌, Bool, true, false, not, ◌&&◌, ◌||◌, Option,
  none, some, ltb, leb, ◌==◌, if◌then◌else◌, length, take, get_elem?,
}
use ml_gridengine_executor.Floats.{Double, over_2_pow}

-- Poco::format("%.2f", d), Poco::format("%z", n), and a `size_t` as a `double`
pub record Format : Type 0 where
  pub two_decimals : Double → List ℕ
  pub unsigned : ℕ → List ℕ
  pub to_double : ℕ → Double

-- `find(c)`; `none` is npos.
unfoldable pub find : ℕ → List ℕ → Option ℕ
find c [] = none
find c (x ∷ xs) = let rest = find c xs in if x == c then some 0 else Option.map (λ i. suc i) rest

abbrev pub is_at : ℕ → Option ℕ → Bool
is_at c none = false
is_at c (some x) = x == c

-- The loop that passes over zeros, from `pos` downwards.
unfoldable pub skip_zeros : List ℕ → ℕ → ℕ → ℕ
skip_zeros s dot_pos zero = zero
skip_zeros s dot_pos (suc pos) =
    let rest = skip_zeros s dot_pos pos in
    if ltb dot_pos (suc pos) && is_at b'0' (get_elem? s (suc pos)) then rest else suc pos

-- `formatFileSize`, of the printed number
unfoldable pub format_file_size : List ℕ → List ℕ → List ℕ
unfolding find skip_zeros
format_file_size s unit = elim (find b'.' s) [
  | none ↦ s ++ unit
  | some dot_pos ↦
      let pos : ℕ = skip_zeros s dot_pos (length s - 1) in
      take (if pos == dot_pos then pos else pos + 1) s ++ unit
]

-- `!s.empty() && s.at(s.size() - 1) != 'B'`
unfoldable pub has_large_unit : List ℕ → Bool
has_large_unit s = not (length s == 0) && not (is_at b'B' (get_elem? s (length s - 1)))

-- The first line of a saved output, in words with the numbers between them: [... bytes discarded],
-- or [... (...) bytes discarded].
pub data DiscardedLine : Type 0 where
  plain_line : List ℕ → DiscardedLine
  sized_line : List ℕ → List ℕ → DiscardedLine

module _ (f : Format) where
  -- `Utils::formatSize`
  unfoldable pub format_size : ℕ → List ℕ
  unfolding format_file_size over_2_pow
  format_size size =
      if leb (1000 * 1024 * 1024) size
      then format_file_size (f.two_decimals (over_2_pow 30 (f.to_double size))) (b'G' ∷ [])
      else if leb (1000 * 1024) size
      then format_file_size (f.two_decimals (over_2_pow 20 (f.to_double size))) (b'M' ∷ [])
      else if leb 1000 size
      then format_file_size (f.two_decimals (over_2_pow 10 (f.to_double size))) (b'K' ∷ [])
      else f.unsigned size ++ (b'B' ∷ [])

  -- The choice of the line.
  unfoldable pub discarded_line : ℕ → DiscardedLine
  unfolding format_size has_large_unit
  discarded_line size =
      if has_large_unit (format_size size)
      then sized_line (f.unsigned size) (format_size size)
      else plain_line (f.unsigned size)
