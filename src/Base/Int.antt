-- ===== src/Base/Int.antt =====
-- Signed integers, and `ssize_t` as the two's complement of a 64-bit word.
use Prim.Native.Nat.{ℕ, ◌-◌, ◌%◌, ◌^◌, ◌<◌}
use mathlib.Core.Path.{◌≡◌}
use native.Mathlib.Omega.{arith}
use ml_gridengine_executor.Base.Tests.{ltb, if◌then◌else◌}
use ml_gridengine_executor.Base.Words.{word}

-- `negsuc n` is -(n + 1).
pub data ℤ : Type 0 where
  pos : ℕ → ℤ
  negsuc : ℕ → ℤ

-- The integers in the range of `ssize_t`.
abbrev pub IsSsize : ℤ → Type 0
IsSsize (pos n) = n < 2 ^ 63
IsSsize (negsuc n) = n < 2 ^ 63

-- (size_t)z
unfoldable pub to_word : ℤ → ℕ
to_word (pos n) = n % word
to_word (negsuc n) = word - 1 - n % word

-- (ssize_t)n
unfoldable pub of_word : ℕ → ℤ
of_word n = if ltb n (2 ^ 63) then pos n else negsuc (word - 1 - n)

pub of_word_small : (n : ℕ) → n < 2 ^ 63 → of_word n ≡ pos n
unfolding of_word
of_word_small n h = ground arith
