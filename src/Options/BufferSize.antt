-- ===== src/Options/BufferSize.antt =====
-- The option `--buffer-size` (src/BaseApp.cpp).
use Prim.Native.String.{String}
use ml_gridengine_executor.Base.{
  ℕ, ◌+◌, ◌*◌, ◌/◌, ◌^◌, ◌≡◌, refl, some, ltb, Bool-cases, inl, inr, if◌then◌else◌,
}
use ml_gridengine_executor.Result.{ok, fault}
use ml_gridengine_executor.Floats.{Double, times_2_pow, to_size}
use ml_gridengine_executor.Options.{Settings, Parsers, unit_power, handle_set_buffer_size}

-- The scaled number of bytes, rounded down.
abbrev pub scaled : Double → ℕ → ℕ
scaled d k = d.mantissa * 2 ^ (d.up + k) / 2 ^ d.down

-- `--buffer-size NUMBER[UNIT]` sets the size to NUMBER times 2 ^ 20 for the units M and MB, 2 ^ 10 for K
-- and KB, and 1 for B or none, in upper or lower case, rounded down; from 2 ^ 64 on the conversion is
-- undefined.
pub handle_set_buffer_size-scaled :
    (p : Parsers) (value number unit : String) (d : Double) (s : Settings)
    → p.match_size value ≡ some (number, unit)
    → p.parse_float number ≡ some d
    → handle_set_buffer_size p value s ≡ (
        if ltb (scaled d (unit_power p (p.to_upper unit))) (2 ^ 64)
        then ok (record s { buffer_size = scaled d (unit_power p (p.to_upper unit)) })
        else fault)
unfolding handle_set_buffer_size times_2_pow to_size
handle_set_buffer_size-scaled p value number unit d s e e' =
    elim (Bool-cases (ltb (scaled d (unit_power p (p.to_upper unit))) (2 ^ 64))) [
      | inl c ↦ rw (e, handle_set_buffer_size, e', c) refl
      | inr c ↦ rw (e, handle_set_buffer_size, e', c) refl
    ]
