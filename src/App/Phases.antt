-- ===== src/App/Phases.antt =====
-- The phases of a run, put together (src/main.cpp).
use Prim.Native.String.{String}
use ml_gridengine_executor.Base.{ℕ, ◌≡◌, refl, List, true, false, Option, some, ℤ}
use ml_gridengine_executor.Heap.{PairingHeap}
use ml_gridengine_executor.ProgramExecutor.{ProgramExecutor}
use ml_gridengine_executor.ProgramExecutor.Sealed.{output_over}
use ml_gridengine_executor.Callback.{Action, Manager, new_manager}
use ml_gridengine_executor.Options.{Settings, exit_ok}
use ml_gridengine_executor.App.Monad.{◌>>=◌, done}
use ml_gridengine_executor.OutputBuffer.{OutputBuffer}
use ml_gridengine_executor.App.Program.{launch, finish}
use ml_gridengine_executor.App.Output.{Saved, collect, save}
use ml_gridengine_executor.App.After.{run_after}
use ml_gridengine_executor.App.Directories.{prepare}
use ml_gridengine_executor.App.{
  World, is_refused, shell_or_sh, no_exit_wait, interrupted_by, run_started, run_app,
  report_started, report_files, work_dir_size, report_finished,
}

module _ {ℓ} {Json : Type ℓ} (object : List (String × Json) → Json) (text : String → Json)
    (number : ℤ → Json) (to_string : Json → String) (decimal : ℤ → String) (H : PairingHeap)
    (malloc : ℕ → List ℕ) where
  -- A run whose phases all end.
  pub run_started-phases :
      (created : List String) (shell : String) (s : Settings) (w : World Json)
      {e e' : ProgramExecutor} {m m' : Manager} {started files finished : List Action}
      {b : OutputBuffer H} {saved : Option Saved} {size : ℤ} {after : Option ProgramExecutor}
      → launch s w.program ≡ done e
      → report_started object text number to_string w
          (new_manager s.status_file s.callback_api w.retry)
        ≡ done (started, m)
      → finish w.terminated w.program e ≡ done e'
      → report_files object text number to_string s.watch_generated w m ≡ done (files, m')
      → collect H malloc s.buffer_size (w.reads (output_over e')) ≡ done b
      → save H s.output_file w.opens b ≡ done saved
      → work_dir_size w ≡ done size
      → report_finished object text number to_string w m' e' size ≡ done finished
      → run_after decimal shell s e' w.after ≡ done after
      → no_exit_wait s.no_exit (interrupted_by w) w.signal_comes ≡ done true
      → run_started object text number to_string decimal H malloc created shell s w
        ≡ done (record {
          status = exit_ok;
          created = created;
          saved = saved;
          started = started;
          files = files;
          finished = finished;
          executor = some e';
          after = after;
        })
  unfolding run_started
  run_started-phases created shell s w {e} {e'} e1 e2 e3 e4 e5 e6 e7 e8 e9 e10 =
      rw
        (
          e1, ◌>>=◌, e2, ◌>>=◌, e3, ◌>>=◌, e4, ◌>>=◌, e5, ◌>>=◌, e6, ◌>>=◌, e7, ◌>>=◌, e8, ◌>>=◌,
          e9, ◌>>=◌, e10,
        )
        refl

  pub run_app-run_started :
      (created : List String) (shell : String) (s : Settings) (w : World Json)
      → prepare w.file_system s ≡ done created
      → w.shell ≡ some shell
      → is_refused s.status_file w.status_exists ≡ false
      → run_app object text number to_string decimal H malloc s w
        ≡ run_started object text number to_string decimal H malloc created (shell_or_sh shell) s w
  unfolding run_app
  run_app-run_started created shell s w p e f = rw (e, ◌>>=◌, f, p) refl
