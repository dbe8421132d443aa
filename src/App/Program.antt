-- ===== src/App/Program.antt =====
-- The user's program in `runApp` (src/main.cpp): it is started, waited for, and ended by the destructor
-- of ExecutorScope.
pub mod Exits
pub mod Killed
use Prim.Native.String.{String}
use ml_gridengine_executor.Base.{ℕ, true, Option, none, some, ℤ, pos}
use ml_gridengine_executor.ProgramExecutor.{ProgramExecutor, Turn, new, start, wait}
use ml_gridengine_executor.ProgramExecutor.Child.{Variables}
use ml_gridengine_executor.ProgramExecutor.Stop.{Turns, kill_by_environ}
use ml_gridengine_executor.Options.{Settings}
use ml_gridengine_executor.App.Monad.{Run, ◌>>=◌, done, called, ended}

-- What the operating system answers about the program.
pub record ProgramWorld : Type 0 where
  pub pipe : Option (ℕ × ℕ)
  pub pid : ℤ
  pub turn : Turn
  pub kills : Turns
  pub try_parse : String → Option ℤ
  pub variables : Variables

-- `ProgramExecutor executor(_args, _environ, _workDir)` and `executor.start()`
unfoldable pub launch : Settings → ProgramWorld → Run ProgramExecutor
launch s w = do e ← called (new s.args s.environ s.work_dir true); called (start e w.pipe w.pid)

-- The handler that is installed while the executor waits for the program: if a termination signal
-- comes, it kills the program. `terminated` holds the waits of that kill.
unfoldable pub on_termination : Option Turns → ProgramWorld → ProgramExecutor → Run ProgramExecutor
on_termination none w e = done e
on_termination (some turns) w e = do
  (signals, e') ← ended (kill_by_environ w.try_parse w.variables turns e)
  done e'

-- `executor.wait()` and the end of the scope. A signal that comes during the wait is handled before the
-- wait goes on.
unfoldable pub finish : Option Turns → ProgramWorld → ProgramExecutor → Run ProgramExecutor
unfolding on_termination
finish terminated w e = do
  killed ← on_termination terminated w e
  waited ← called (wait killed (pos 0) w.turn)
  (over, e') ← ended waited
  (signals, e'') ← ended (kill_by_environ w.try_parse w.variables w.kills e')
  done e''
