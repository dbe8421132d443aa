-- ===== src/App/Program/Exits.antt =====
-- A program that ends by itself (src/main.cpp, src/ProgramExecutor.cpp).
use Prim.Native.String.{String}
use ml_gridengine_executor.Base.{
  ℕ, ◌≡◌, refl, ap, ◌∙◌, List, ◌∷◌, Bool, true, false, Option, none, some, ℤ, pos, if◌then◌else◌,
}
use ml_gridengine_executor.Result.{ok, throws, illegal_state}
use ml_gridengine_executor.ProgramExecutor.{
  ProgramExecutor, Turn, running, is_running, is_not_started, new, launched, start,
  wait_in_background, background, wait_started, wait,
}
use ml_gridengine_executor.ProgramExecutor.Stop.Ends.{kill_by_environ_over}
use ml_gridengine_executor.Options.{Settings}
use ml_gridengine_executor.App.Monad.{done}
use ml_gridengine_executor.App.Program.{ProgramWorld, launch, finish}

-- The program ends with the status `st` while the executor waits for it.
abbrev pub ending : ℕ → Turn
ending st = record { before = none; during = some (some st); late = none }

-- The executor once the program has been started.
abbrev pub launched_as : Settings → String → List String → ℤ → ℕ → ProgramExecutor
launched_as s file args pid fd = record {
  args = file ∷ args;
  environ = s.environ;
  work_dir = s.work_dir;
  capture_output = true;
  status = running;
  wait_status = 0;
  process_id = pid;
  pipe_fd = fd;
  pipe_closed = false;
}

pub launch-launched_as :
    (s : Settings) (w : ProgramWorld) (file : String) (args : List String) (fds : ℕ × ℕ)
    → s.args ≡ file ∷ args
    → w.pipe ≡ some fds
    → launch s w ≡ done (launched_as s file args w.pid fds.0)
unfolding launch new start launched
launch-launched_as s w file args fds e e' = rw (e, e') refl

wait_started-ending :
    (e : ProgramExecutor) (st : ℕ)
    → e.status ≡ running
    → (wait_in_background e (some st)).1 ≡ true
    → wait_started e (pos 0) (ending st) ≡ some (true, (wait_in_background e (some st)).0)
unfolding wait_started background
wait_started-ending e st r woken =
    let e' : ProgramExecutor = (wait_in_background e (some st)).0 in
    let b : Bool = (wait_in_background e (some st)).1 in
    ap
      (λ status.
        if is_running status
        then if◌then◌else◌ {A = Option (Bool × ProgramExecutor)} b (some (true, e')) none
        else some (true, e))
      r
    ∙ ap (λ c. if◌then◌else◌ {A = Option (Bool × ProgramExecutor)} c (some (true, e')) none) woken

wait-ending :
    (e : ProgramExecutor) (st : ℕ)
    → e.status ≡ running
    → (wait_in_background e (some st)).1 ≡ true
    → wait e (pos 0) (ending st) ≡ ok (some (true, (wait_in_background e (some st)).0))
unfolding wait
wait-ending e st r woken =
    ap
      (λ status.
        if is_not_started status
        then throws illegal_state
        else ok (wait_started e (pos 0) (ending st)))
      r
    ∙ ap ok (wait_started-ending e st r woken)

pub finish-ending :
    (w : ProgramWorld) (e : ProgramExecutor) (st : ℕ)
    → w.turn ≡ ending st
    → e.status ≡ running
    → (wait_in_background e (some st)).1 ≡ true
    → is_running (wait_in_background e (some st)).0.status ≡ false
    → finish none w e ≡ done (wait_in_background e (some st)).0
unfolding finish
finish-ending w e st t r woken over =
    rw
      (
        t,
        wait-ending e st r woken,
        kill_by_environ_over w.try_parse w.variables w.kills (wait_in_background e (some st)).0
            over,
      )
      refl
