-- ===== src/ProgramExecutor/Stop.antt =====
-- `kill()` with the times from the environment, and the destructor (src/ProgramExecutor.cpp).
pub mod Ends
use Prim.Native.String.{String}
use mathlib.Core.Option
use ml_gridengine_executor.Base.{ℕ, List, [], Option, none, some, if◌then◌else◌, ◌>>=◌, ℤ, pos}
use ml_gridengine_executor.ProgramExecutor.{ProgramExecutor, Turn, Signal, is_running, kill}
use ml_gridengine_executor.ProgramExecutor.Child.{Variables}

-- `ML_GRIDENGINE_KILL_PROGRAM_FIRST_WAIT_SECONDS` and the others, where the build sets no other times
abbrev pub first_wait_seconds : ℤ
first_wait_seconds = pos 10

abbrev pub second_wait_seconds : ℤ
second_wait_seconds = pos 20

abbrev pub final_wait_seconds : ℤ
final_wait_seconds = pos 60

-- The waits of a call of `kill()`.
pub record Turns : Type 0 where
  pub first : Turn
  pub second : Turn
  pub final : Turn

module _ (try_parse : String → Option ℤ) (variables : Variables) where
  -- `tryParseEnv(key, dst, defaultValue)`: what it leaves in `*dst`. `NumberParser::tryParse` is a
  -- parameter.
  unfoldable pub try_parse_env : String → ℤ → ℤ
  try_parse_env key default_value = elim (variables key >>= try_parse) [
    | none ↦ default_value
    | some seconds ↦ seconds
  ]

  -- `kill()`
  unfoldable pub kill_by_environ :
      Turns → ProgramExecutor → Option (List (ℤ × Signal) × ProgramExecutor)
  unfolding try_parse_env
  kill_by_environ t e =
      kill (try_parse_env "ML_GRIDENGINE_KILL_PROGRAM_FIRST_WAIT_SECONDS" first_wait_seconds)
        (try_parse_env "ML_GRIDENGINE_KILL_PROGRAM_SECOND_WAIT_SECONDS" second_wait_seconds)
        (try_parse_env "ML_GRIDENGINE_KILL_PROGRAM_FINAL_WAIT_SECONDS" final_wait_seconds) t.first
        t.second t.final e

  -- The destructor, and the destructor of ExecutorScope (src/main.cpp), as to the process.
  unfoldable pub destroy : Turns → ProgramExecutor → Option (List (ℤ × Signal) × ProgramExecutor)
  unfolding kill_by_environ
  destroy t e = if is_running e.status then kill_by_environ t e else some ([], e)
