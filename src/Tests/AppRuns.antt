-- ===== src/Tests/AppRuns.antt =====
-- Whole runs of the executor (src/main.cpp, src/BaseApp.cpp).
use Prim.Native.String.{String}
use ml_gridengine_executor.Base.{
  ◌*◌, ◌+◌, ◌≡◌, ◌≢◌, ◌⊎◌, refl, arith, List, [], ◌∷◌, true, false, none, some, ℤ, pos,
}
use ml_gridengine_executor.Heap.{list_heap}
use ml_gridengine_executor.Callback.{enabled, new_manager}
use ml_gridengine_executor.DirSize.{plain, directory, no_more, entry}
use ml_gridengine_executor.DirSize.Sum.{total}
use ml_gridengine_executor.Options.{
  Settings, defaults, exit_ok, exit_software, base_main, Paths, with_args,
}
use ml_gridengine_executor.App.Monad.{done}
use ml_gridengine_executor.App.Program.{ProgramWorld}
use ml_gridengine_executor.App.Program.Exits.{ending}
use ml_gridengine_executor.App.{
  World, Outcome, refused, is_refused, run_app, run_status, no_exit_wait,
}
use ml_gridengine_executor.IoController.{ends}
use ml_gridengine_executor.App.After.{run_after}
use ml_gridengine_executor.App.Directories.{FileSystem, prepare}
use ml_gridengine_executor.App.Directories.Present.{Keeping, Prepared, prepare-HasParent}
use text.Mathlib.Text.{◌==◌}
use text.Mathlib.TextPositions.{eq_refl}
use ml_gridengine_executor.Base.{◌||◌, Bool}
use ml_gridengine_executor.App.Exit.{Ran, waited, run_app_exit, run_app_signal}
use ml_gridengine_executor.ProgramExecutor.{ProgramExecutor, Turn}
use ml_gridengine_executor.ProgramExecutor.Stop.{Turns}
use ml_gridengine_executor.App.Windows.{Arrivals, handled}
use ml_gridengine_executor.App.Windows.Told.{handled-told}
use ml_gridengine_executor.Signals.{SignalState}
use ml_gridengine_executor.App.Refuse.{base_main-refused}
use ml_gridengine_executor.Tests.{zeros, zeros-Allocates}
use ml_gridengine_executor.Tests.ProgramRuns.{still}

abbrev exists_in : List String → String → Bool
exists_in [] path = false
exists_in (dir ∷ made) path = (path == dir) || exists_in made path

abbrev settings : Settings
settings = record defaults {
  args = "sh" ∷ "-c" ∷ "exit 3" ∷ [];
  buffer_size = 4;
  work_dir = "/work";
  output_file = "output.log";
  status_file = "status.json";
  watch_generated = true;
}

abbrev program : ProgramWorld
program = record {
  pipe = some (5, 6);
  pid = pos 42;
  turn = ending (3 * 256);
  kills = record { first = still; second = still; final = still };
  try_parse = λ s. none;
  variables = λ name. none;
}

-- A file system in which nothing exists but what is made, and files have no directory.
abbrev files : FileSystem
files = record { exists_after = exists_in; can_create = λ dir. true; parent_of = λ path. none }

files-Keeping : Keeping files
files-Keeping = record {
  made = λ dir before. ground (arith, eq_refl dir);
  stays = λ dir other before h. ground (arith, h);
}

prepare-HasParent_example : Prepared files files-Keeping settings ("/work" ∷ [])
prepare-HasParent_example =
    prepare-HasParent files files-Keeping settings ("/work" ∷ []) (unfold prepare in refl)

-- The program writes six bytes and exits with the code 3.
abbrev world : World String
world = record {
  shell = some "";
  status_exists = false;
  file_system = files;
  host_name = "node";
  port = pos 8080;
  retry = some 1;
  program = program;
  terminated = none;
  reads = λ over. some (8 ∷ 9 ∷ 1 ∷ []) ∷ some (2 ∷ 3 ∷ 4 ∷ []) ∷ some [] ∷ [];
  generated = ("config", "{}") ∷ [];
  is_file = λ name. true;
  load_json_file = λ name. none;
  opens = true;
  start_opens = true;
  finish_opens = true;
  tree = directory (some 7) (entry (plain (some 3)) no_more);
  interrupted = λ n. false;
  size_interrupted = false;
  start_posts = λ i. false;
  file_posts = λ n i. false;
  finish_posts = λ i. false;
  after = program;
  signalled = false;
  signal_comes = false;
}

-- A JSON library that keeps only what a document is about.
abbrev about : List (String × String) → String
about fields = "{}"

abbrev itself : String → String
itself t = t

abbrev shown : ℤ → String
shown z = "0"

run_app_exit_example :
    Ran about itself shown itself shown list_heap zeros settings world
      (waited settings "sh" ("-c" ∷ "exit 3" ∷ []) (pos 42) 5 (3 * 256))
      (("status", "EXITED") ∷ ("exitCode", shown (pos 3)) ∷ [])
      ("/work" ∷ [])
      none
unfolding total
run_app_exit_example =
    run_app_exit about itself shown itself shown list_heap zeros settings world "" "sh"
      ("-c" ∷ "exit 3" ∷ []) (5, 6) ("/work" ∷ []) zeros-Allocates (omega arith) (omega arith) refl
      refl (unfold enabled in unfold new_manager in refl) (unfold new_manager in omega arith) refl
      (unfold is_refused in refl) (unfold prepare in refl) refl (omega arith) (unfold ends in refl)
      refl refl (λ n. refl) refl (omega arith) 3 none (unfold no_exit_wait in refl) refl refl
      (omega arith) (unfold run_after in refl)

-- The program is interrupted.
abbrev interrupted_world : World String
interrupted_world = record world { program = record program { turn = ending 2 } }

run_app_signal_example :
    Ran about itself shown itself shown list_heap zeros settings interrupted_world
      (waited settings "sh" ("-c" ∷ "exit 3" ∷ []) (pos 42) 5 (0 * 128 + 2))
      (("status", "SIGNALLED") ∷ ("exitSignal", shown (pos 2)) ∷ [])
      ("/work" ∷ [])
      none
unfolding total
run_app_signal_example =
    run_app_signal about itself shown itself shown list_heap zeros settings interrupted_world ""
      "sh" ("-c" ∷ "exit 3" ∷ []) (5, 6) ("/work" ∷ []) zeros-Allocates (omega arith) (omega arith)
      refl refl (unfold enabled in unfold new_manager in refl) (unfold new_manager in omega arith)
      refl (unfold is_refused in refl) (unfold prepare in refl) refl (omega arith)
      (unfold ends in refl) refl refl (λ n. refl) refl (omega arith) 2 0 none
      (unfold no_exit_wait in refl) refl refl (omega arith) (omega arith) (omega arith)
      (unfold run_after in refl)

abbrev no_waits : Turn
no_waits = record { before = none; during = none; late = none }

-- A termination signal comes, and the program ends at the first SIGINT.
abbrev kill_waits : Turns
kill_waits = record { first = ending 2; second = no_waits; final = no_waits }

abbrev terminated_world : World String
terminated_world = record world {
  program = record program { turn = no_waits };
  terminated = some kill_waits;
}

abbrev paths : Paths
paths = record { absolute = λ dir. dir; current = "/tmp" }

base_main-refused_example :
    (settings.status_file ≢ ""
      → (true ≡ true)
      → (run_app about itself shown itself shown list_heap zeros
            (record settings { args = "sh" ∷ []; work_dir = "/work" })
            (record world { status_exists = true })
          ≡ done refused)
        × (refused.status ≡ exit_software)
        × (base_main paths
              (run_status about itself shown itself shown list_heap zeros
                (record world { status_exists = true }))
              settings
              ("sh" ∷ [])
            ≡ done exit_ok))
    × ((settings.status_file ≡ "") ⊎ (true ≡ false)
        → (o : Outcome)
        → run_app about itself shown itself shown list_heap zeros
            (record settings { args = "sh" ∷ []; work_dir = "/work" })
            (record world { status_exists = true })
          ≡ done o
        → o.status ≡ exit_ok)
unfolding with_args
base_main-refused_example =
    base_main-refused about itself shown itself shown list_heap zeros paths settings
      (record world { status_exists = true }) "" "sh" [] refl refl

-- Two signals while the program is waited for, one while its reports are posted.
abbrev arrivals : Arrivals
arrivals = record {
  waiting = 2 ∷ 15 ∷ [];
  collecting = [];
  sizing = [];
  reporting = 15 ∷ [];
  closing = [];
  staying = 2 ∷ [];
}

handled-told_example :
    (s : SignalState) × (handled true true arrivals ≡ some ((0, 2) ∷ (0, 15) ∷ [], s))
    × (s.stack ≡ [])
handled-told_example = handled-told true true arrivals
