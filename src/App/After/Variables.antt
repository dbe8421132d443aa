-- ===== src/App/After/Variables.antt =====
-- What the command after the program can read from its environment (src/main.cpp).
use Prim.Native.String.{String}
use ml_gridengine_executor.Base.{ℕ, ◌*◌, ◌<◌, ◌≡◌, refl, ap, ◌∙◌, some, ℤ, pos, if◌then◌else◌}
use text.Mathlib.Text.{◌==◌}
use ml_gridengine_executor.Environ.{get, set, get-set}
use ml_gridengine_executor.ProgramExecutor.{ProgramExecutor, exited, wait_in_background, exit_code}
use ml_gridengine_executor.ProgramExecutor.Status.{
  exit_code-wait_in_background, status-wait_in_background_exit,
}
use ml_gridengine_executor.Options.{Settings}
use ml_gridengine_executor.App.After.{after_environ}

after_environ-exited :
    (decimal : ℤ → String) (s : Settings) (e : ProgramExecutor)
    → e.status ≡ exited
    → after_environ decimal s e
      ≡ set "ML_GRIDENGINE_PROGRAM_EXIT_CODE" (decimal (exit_code e)) (
          set "ML_GRIDENGINE_PROGRAM_EXIT_STATUS" "EXITED"
            (set "ML_GRIDENGINE_PROGRAM_WORK_DIR" s.work_dir s.environ))
unfolding after_environ
after_environ-exited decimal s e h = rw h refl

-- When waitpid has reported an exit with a code below 256, the command finds the working directory, the
-- status EXITED and the code in its environment, and every other variable as `--env` has set it.
pub after_environ_exit :
    (decimal : ℤ → String) (s : Settings) (e : ProgramExecutor) (code : ℕ) (name : String)
    → code < 256
    → get name (after_environ decimal s (wait_in_background e (some (code * 256))).0) ≡ (
        if name == "ML_GRIDENGINE_PROGRAM_EXIT_CODE"
        then some (decimal (pos code))
        else if name == "ML_GRIDENGINE_PROGRAM_EXIT_STATUS"
        then some "EXITED"
        else if name == "ML_GRIDENGINE_PROGRAM_WORK_DIR"
        then some s.work_dir
        else get name s.environ)
after_environ_exit decimal s e code name h =
    let e' : ProgramExecutor = (wait_in_background e (some (code * 256))).0 in
    ap (get name) (after_environ-exited decimal s e' (status-wait_in_background_exit e code))
    ∙ simp (get-set, (exit_code-wait_in_background e code h).0)
