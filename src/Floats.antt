-- ===== src/Floats.antt =====
-- The finite numbers of type `double` that are not negative, `mantissa * 2 ^ exponent`, as far as the
-- executor computes with them: it multiplies and divides by powers of two, which is exact as long as
-- the exponent is in range.
use ml_gridengine_executor.Base.{ℕ, ◌+◌, ◌*◌, ◌/◌, ◌^◌, Option, none, some, ltb, if◌then◌else◌}

-- The value is `mantissa * 2 ^ up / 2 ^ down`.
pub record Double : Type 0 where
  pub mantissa : ℕ
  pub up : ℕ
  pub down : ℕ

unfoldable pub times_2_pow : ℕ → Double → Double
times_2_pow k d = record d { up = d.up + k }

unfoldable pub over_2_pow : ℕ → Double → Double
over_2_pow k d = record d { down = d.down + k }

-- The whole part.
abbrev pub floor : Double → ℕ
floor d = d.mantissa * 2 ^ d.up / 2 ^ d.down

-- `(size_t)d`, which is undefined from 2 ^ 64 on.
unfoldable pub to_size : Double → Option ℕ
to_size d = if ltb (floor d) (2 ^ 64) then some (floor d) else none
