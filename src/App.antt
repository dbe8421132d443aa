-- ===== src/App.antt =====
-- `MainApp::runApp` (src/main.cpp): how the parts of the executor work together in one run.
pub mod Monad
pub mod Program
pub mod Output
pub mod After
pub mod Directories
pub mod Report
pub mod Phases
pub mod Exit
pub mod Terminated
pub mod Windows
pub mod Configuration
pub mod Refuse
use Prim.Native.String.{String}
use text.Mathlib.Text.{◌==◌}
use ml_gridengine_executor.Base.{
  ℕ, suc, List, [], ◌∷◌, ◌++◌, Bool, true, false, not, ◌&&◌, ◌||◌, Option, none, some,
  if◌then◌else◌, ℤ, negsuc, length, of_word,
}
use ml_gridengine_executor.Result.{Result, ok}
use ml_gridengine_executor.Heap.{PairingHeap}
use ml_gridengine_executor.ProgramExecutor.{ProgramExecutor}
use ml_gridengine_executor.ProgramExecutor.Sealed.{output_over}
use ml_gridengine_executor.Callback.{
  Action, Manager, new_manager, enabled, program_started, program_finished,
}
use ml_gridengine_executor.Watcher.{deliver, collect_all}
use ml_gridengine_executor.DirSize.{File, calculate_dir_size}
use ml_gridengine_executor.Options.{Settings, exit_ok, exit_software}
use ml_gridengine_executor.ProgramExecutor.Stop.{Turns}
use ml_gridengine_executor.App.Monad.{Run, ◌>>=◌, done, ended, required}
use ml_gridengine_executor.App.Program.{ProgramWorld, launch, finish}
use ml_gridengine_executor.App.Output.{Saved, collect, save}
use ml_gridengine_executor.App.After.{run_after}
use ml_gridengine_executor.App.Directories.{FileSystem, prepare}

-- What the world answers in a run.
pub record World {ℓ} (Json : Type ℓ) : Type ℓ where
  -- getenv("SHELL"), and whether the status file exists
  pub shell : Option String
  pub status_exists : Bool
  pub file_system : FileSystem
  -- the name of the host, the port of the server, ML_GRIDENGINE_CALLBACK_MAX_RETRY
  pub host_name : String
  pub port : ℤ
  pub retry : Option ℕ
  -- the program, and what it writes
  pub program : ProgramWorld
  -- a termination signal that comes while the program is waited for: the waits of the kill
  pub terminated : Option Turns
  -- what the reads of the output give, if the program has ended or its pipe has been closed, and if not
  pub reads : Bool → List (Option (List ℕ))
  -- the files it generates: as they are reported, and as they are in the end
  pub generated : List (String × Json)
  pub is_file : String → Bool
  pub load_json_file : String → Option Json
  -- whether the output file can be opened
  pub opens : Bool
  -- whether the status file can be opened, by `programStarted` and by `programFinished`
  pub start_opens : Bool
  pub finish_opens : Bool
  -- the working directory, and the flag that stops the computing of its size
  pub tree : File
  pub interrupted : ℕ → Bool
  pub size_interrupted : Bool
  -- which attempts to post succeed: of `programStarted`, the generated files, and `programFinished`
  pub start_posts : ℕ → Bool
  pub file_posts : ℕ → ℕ → Bool
  pub finish_posts : ℕ → Bool
  -- the command after the program
  pub after : ProgramWorld
  -- whether a termination signal has come at another time before the end, or comes then
  pub signalled : Bool
  pub signal_comes : Bool

-- Whether there is a termination signal that has come.
abbrev pub came : Option Turns → Bool
came none = false
came (some turns) = true

-- `SignalHandler::interrupted()`, when the program, its reports and its command are over.
abbrev pub interrupted_by {ℓ} : {Json : Type ℓ} → World Json → Bool
interrupted_by w = came w.terminated || (w.size_interrupted || w.signalled)

-- What a run leaves. The reports on generated files are made by the thread that watches them and, when
-- that has stopped, by the main thread: before or after that of the start, and before that of the end.
pub record Outcome : Type 0 where
  pub status : ℕ
  pub created : List String
  pub saved : Option Saved
  pub started : List Action
  pub files : List Action
  pub finished : List Action
  pub executor : Option ProgramExecutor
  pub after : Option ProgramExecutor

-- A run that finds the status file.
abbrev pub refused : Outcome
refused = record {
  status = exit_software;
  created = [];
  saved = none;
  started = [];
  files = [];
  finished = [];
  executor = none;
  after = none;
}

-- "Get the system shell configuration"
unfoldable pub shell_or_sh : String → String
shell_or_sh shell = if shell == "" then "sh" else shell

-- "Ensure the status file not exist"
unfoldable pub is_refused : String → Bool → Bool
is_refused status_file status_exists = not (status_file == "") && status_exists

-- `_noExit`: the wait for a termination signal, which may never come.
unfoldable pub no_exit_wait : Bool → Bool → Bool → Run Bool
no_exit_wait no_exit signalled signal_comes =
    if no_exit && (not signalled && not signal_comes) then ok none else done true

-- `workDirSize`
unfoldable pub work_dir_size {ℓ} : {Json : Type ℓ} → World Json → Run ℤ
work_dir_size w = do
  size ← required (calculate_dir_size w.interrupted true w.tree)
  done (if w.size_interrupted then negsuc 0 else of_word size)

module _ {ℓ} {Json : Type ℓ} (object : List (String × Json) → Json) (text : String → Json)
    (number : ℤ → Json) (to_string : Json → String) where
  -- The report that the program has been started.
  unfoldable pub report_started : World Json → Manager → Run (List Action × Manager)
  report_started w m =
      if enabled m
      then program_started object text number to_string w.start_opens w.start_posts m w.host_name
          w.port
      else done ([], m)

  -- The reports on generated files, as the program runs and when it is over.
  unfoldable pub report_files : Bool → World Json → Manager → Run (List Action × Manager)
  report_files watch_generated w m =
      if watch_generated && enabled m
      then ended (
          deliver object text number to_string w.file_posts 0
            (w.generated ++ collect_all w.load_json_file w.is_file) m)
      else done ([], m)

  -- The report that the program is over.
  unfoldable pub report_finished : World Json → Manager → ProgramExecutor → ℤ → Run (List Action)
  report_finished w m e size =
      if enabled m
      then program_finished object text number to_string w.finish_opens w.finish_posts m e size
      else done []

  module _ (decimal : ℤ → String) (H : PairingHeap) (malloc : ℕ → List ℕ) where
    -- The run from the start of the program on. The manager's part that the start changes is not the one
    -- that the reports on files use, so that these give the same whichever thread comes first.
    unfoldable pub run_started : List String → String → Settings → World Json → Run Outcome
    unfolding report_started report_files work_dir_size report_finished no_exit_wait
    run_started created shell s w = do
      e ← launch s w.program
      (started, m) ← report_started w (new_manager s.status_file s.callback_api w.retry)
      e' ← finish w.terminated w.program e
      (files, m') ← report_files s.watch_generated w m
      b ← collect H malloc s.buffer_size (w.reads (output_over e'))
      saved ← save H s.output_file w.opens b
      size ← work_dir_size w
      finished ← report_finished w m' e' size
      after ← run_after decimal shell s e' w.after
      waited ← no_exit_wait s.no_exit (interrupted_by w) w.signal_comes
      done (record {
        status = exit_ok;
        created = created;
        saved = saved;
        started = started;
        files = files;
        finished = finished;
        executor = some e';
        after = after;
      })

    -- `runApp()`. A shell that is not set is a null pointer that becomes a string.
    unfoldable pub run_app : Settings → World Json → Run Outcome
    unfolding run_started is_refused shell_or_sh
    run_app s w = do
      shell ← required w.shell
      if is_refused s.status_file w.status_exists
          then done refused
          else (do created ← prepare w.file_system s; run_started created (shell_or_sh shell) s w)

    -- What `main` gets of a run.
    unfoldable pub run_status : World Json → Settings → Run ℕ
    unfolding run_app
    run_status w s = do o ← run_app s w; done o.status
