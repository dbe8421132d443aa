-- ===== src/App/After.antt =====
-- The command that `runApp` (src/main.cpp) runs when the program is over.
pub mod Variables
use Prim.Native.String.{String}
use text.Mathlib.Text.{◌==◌}
use ml_gridengine_executor.Base.{
  ℕ, ◌*◌, List, [], ◌∷◌, Bool, true, false, Option, none, some, if◌then◌else◌, ℤ, pos,
}
use ml_gridengine_executor.Environ.{Environ, set}
use ml_gridengine_executor.ProgramExecutor.{
  ProgramExecutor, Signal, not_started, running, exited, signalled, cannot_kill, exit_code,
  exit_signal, new, start, wait,
}
use ml_gridengine_executor.ProgramExecutor.Stop.{kill_by_environ, destroy}
use ml_gridengine_executor.Options.{Settings}
use ml_gridengine_executor.App.Monad.{Run, ◌>>=◌, done, called, ended}
use ml_gridengine_executor.App.Program.{ProgramWorld}

-- The environment of the command. `decimal` is `Poco::format("%d", z)`.
unfoldable pub after_environ : (ℤ → String) → Settings → ProgramExecutor → Environ
after_environ decimal s e =
    let environ : Environ = set "ML_GRIDENGINE_PROGRAM_WORK_DIR" s.work_dir s.environ in
    elim e.status [
      | exited ↦
          set "ML_GRIDENGINE_PROGRAM_EXIT_CODE" (decimal (exit_code e))
            (set "ML_GRIDENGINE_PROGRAM_EXIT_STATUS" "EXITED" environ)
      | signalled ↦
          set "ML_GRIDENGINE_PROGRAM_EXIT_SIGNAL" (decimal (exit_signal e))
            (set "ML_GRIDENGINE_PROGRAM_EXIT_STATUS" "SIGNALLED" environ)
      | cannot_kill ↦ set "ML_GRIDENGINE_PROGRAM_EXIT_STATUS" "CANNOT_KILL" environ
      | running ↦ environ
      | not_started ↦ environ
    ]

-- `ProgramExecutor runAfterExecutor(...)`, `start` and `wait`; its output is not captured.
unfoldable pub launch_after :
    String → Settings → Environ → ProgramWorld → Run (Bool × ProgramExecutor)
launch_after shell s environ w = do
  a ← called (new (shell ∷ "-c" ∷ s.run_after ∷ []) environ "" false)
  a' ← called (start a w.pipe w.pid)
  waited ← called (wait a' (pos (30 * 1000)) w.turn)
  ended waited

-- The command: the executor of it when it is over, or has been given up. `none` is no command.
unfoldable pub run_after :
    (ℤ → String) → String → Settings → ProgramExecutor → ProgramWorld → Run (Option ProgramExecutor)
unfolding launch_after
run_after decimal shell s e w = if s.run_after == "" then done none else (do
  (over, a) ← launch_after shell s (after_environ decimal s e) w
  (signals, a') ←
      (if over then done ([], a) else ended (kill_by_environ w.try_parse w.variables w.kills a))
  (more, a'') ← ended (destroy w.try_parse w.variables w.kills a')
  done (some a''))
