-- ===== src/App/Exit.antt =====
-- A whole run of a program that exits, or is ended by a signal (src/main.cpp).
use Prim.Native.String.{String}
use text.Mathlib.Text.{◌==◌}
use ml_gridengine_executor.Base.{
  ℕ, ◌+◌, ◌*◌, ◌^◌, ◌≤◌, ◌<◌, ◌≡◌, refl, ap, sym, subst, ◌∙◌, List, [], ◌∷◌, true, false, not, ◌||◌,
  ◌&&◌, Option, none, some, ℤ, pos, length,
}
use ml_gridengine_executor.Heap.{PairingHeap}
use ml_gridengine_executor.Ring.Expand.{Allocates}
use ml_gridengine_executor.ProgramExecutor.{ProgramExecutor, is_running, wait_in_background}
use ml_gridengine_executor.ProgramExecutor.Sealed.{output_over, exited_over, signalled_over}
use ml_gridengine_executor.ProgramExecutor.Status.{
  woken-wait_in_background_exit, status-wait_in_background_exit, woken-wait_in_background_signal,
  status-wait_in_background_signal,
}
use ml_gridengine_executor.Callback.{Action, Manager, status_fields, enabled, new_manager}
use ml_gridengine_executor.Callback.Report.{
  reporting, finished_with, status_fields-exit, status_fields-signal,
}
use ml_gridengine_executor.Watcher.Keep.{Alike}
use ml_gridengine_executor.DirSize.Sum.{total}
use ml_gridengine_executor.App.Output.{collect}
use ml_gridengine_executor.IoController.{ends}
use ml_gridengine_executor.IoController.Run.{received}
use ml_gridengine_executor.Options.{Settings, exit_ok}
use ml_gridengine_executor.App.Monad.{done}
use ml_gridengine_executor.App.Program.Exits.{
  ending, launched_as, launch-launched_as, finish-ending,
}
use ml_gridengine_executor.App.Program.{finish}
use ml_gridengine_executor.App.Output.Saves.{kept, collect-Collected, save-kept}
use ml_gridengine_executor.App.Phases.{run_started-phases, run_app-run_started}
use ml_gridengine_executor.App.After.{run_after}
use ml_gridengine_executor.App.Directories.{prepare}
use ml_gridengine_executor.App.Report.{
  started_doc, report_started-reporting, report_files-Alike, report_finished-reporting,
  work_dir_size-total,
}
use ml_gridengine_executor.App.{
  World, report_files, is_refused, shell_or_sh, no_exit_wait, interrupted_by, run_app,
}

-- The executor when waitpid has reported a status of the program.
abbrev pub waited : Settings → String → List String → ℤ → ℕ → ℕ → ProgramExecutor
waited s file args pid fd st = (wait_in_background (launched_as s file args pid fd) (some st)).0

module _ {ℓ} {Json : Type ℓ} (object : List (String × Json) → Json) (text : String → Json)
    (number : ℤ → Json) (to_string : Json → String) where
  module _ (decimal : ℤ → String) (H : PairingHeap) (malloc : ℕ → List ℕ) where
    -- What a run has come to, whose program is over: it returns EXIT_OK, and has saved the last bytes
    -- that fit into the buffer, and how many are missing, if any are. It has reported the start, what
    -- `report_files` reports of the generated files, and at the end these fields with the size of the
    -- working directory.
    abbrev pub Ran :
        Settings
        → World Json
        → ProgramExecutor
        → List (String × Json)
        → List String
        → Option ProgramExecutor
        → Type 0
    Ran s w e fields created after =
        (files : List Action) × (m : Manager) × (Alike
          (record (new_manager s.status_file s.callback_api w.retry) {
            host_name = w.host_name;
            port = w.port;
          })
          m)
        × (report_files object text number to_string s.watch_generated w
              (record (new_manager s.status_file s.callback_api w.retry) {
                host_name = w.host_name;
                port = w.port;
              })
            ≡ done (files, m))
        × (run_app object text number to_string decimal H malloc s w
            ≡ done (record {
              status = exit_ok;
              created = created;
              saved = some (kept s.buffer_size (received (w.reads true)));
              started =
                  reporting object text number to_string w.start_posts
                    (new_manager s.status_file s.callback_api w.retry)
                    (started_doc object text number to_string w.host_name w.port);
              files = files;
              finished = reporting object text number to_string w.finish_posts m (
                  finished_with object text number to_string w.finish_posts m (pos (total w.tree))
                    fields);
              executor = some e;
              after = after;
            }))

    module _ (s : Settings) (w : World Json) (shell file : String) (args : List String)
        (fds : ℕ × ℕ) (created : List String) (alloc : Allocates malloc)
        (size_positive : 1 ≤ s.buffer_size) (size_small : s.buffer_size ≤ 2 ^ 63)
        (saves : ((s.output_file == "") || not w.opens) ≡ false) (has_args : s.args ≡ file ∷ args)
        (reports : enabled (new_manager s.status_file s.callback_api w.retry) ≡ true)
        (bounded : (new_manager s.status_file s.callback_api w.retry).max_retry + 1 < 2 ^ 32)
        (has_shell : w.shell ≡ some shell)
        (fresh : is_refused s.status_file w.status_exists ≡ false)
        (prepared : prepare w.file_system s ≡ done created) (has_pipe : w.program.pipe ≡ some fds)
        (in_range : length (received (w.reads true)) < 2 ^ 63)
        (output_ends : ends (w.reads true) ≡ true)
        (start_saved : (not (s.status_file == "") && not w.start_opens) ≡ false)
        (finish_saved : (not (s.status_file == "") && not w.finish_opens) ≡ false)
        (never : (n : ℕ) → w.interrupted n ≡ false) (undisturbed : w.size_interrupted ≡ false)
        (tree_small : total w.tree < 2 ^ 63) where
      pub run_app_over :
          (e : ProgramExecutor) (fields : List (String × Json)) (after : Option ProgramExecutor)
          → finish w.terminated w.program (launched_as s file args w.program.pid fds.0) ≡ done e
          → output_over e ≡ true
          → status_fields object text number to_string e ≡ fields
          → run_after decimal (shell_or_sh shell) s e w.after ≡ done after
          → no_exit_wait s.no_exit (interrupted_by w) w.signal_comes ≡ done true
          → Ran s w e fields created after
      unfolding enabled new_manager
      run_app_over e fields after finished over status command exits =
          let m₀ : Manager = new_manager s.status_file s.callback_api w.retry in
          let m₁ : Manager = record m₀ { host_name = w.host_name; port = w.port } in
          let (files, m₂, e4, alike) =
            report_files-Alike object text number to_string s.watch_generated w m₁ bounded in
          let (b, e5, c) =
            collect-Collected H malloc s.buffer_size (w.reads true) alloc size_positive size_small
              in_range output_ends in
          let phases =
            run_started-phases object text number to_string decimal H malloc created
              (shell_or_sh shell) s w
              (launch-launched_as s w.program file args fds has_args has_pipe)
              (report_started-reporting object text number to_string w m₀ bounded reports
                start_saved)
              finished e4 (ap (λ d. collect H malloc s.buffer_size (w.reads d)) over ∙ e5)
              (save-kept H malloc s.buffer_size (received (w.reads true)) s.output_file w.opens b c
                saves)
              (work_dir_size-total w never undisturbed tree_small)
              (report_finished-reporting object text number to_string w m₂ e (pos (total w.tree)) _
                (subst (λ r. r + 1 < 2 ^ 32) (sym (ap (λ m. m.max_retry) alike)) bounded)
                (ap enabled alike ∙ reports)
                (ap (λ m. not (m.status_file == "") && not w.finish_opens) alike ∙ finish_saved)
                status)
              command exits in
          (
            files,
            m₂,
            alike,
            e4,
            run_app-run_started object text number to_string decimal H malloc created shell s w
                  prepared has_shell fresh
                ∙ phases,
          )

      by_itself :
          (st : ℕ)
          → w.terminated ≡ none
          → w.program.turn ≡ ending st
          → (wait_in_background (launched_as s file args w.program.pid fds.0) (some st)).1 ≡ true
          → is_running (waited s file args w.program.pid fds.0 st).status ≡ false
          → finish w.terminated w.program (launched_as s file args w.program.pid fds.0)
            ≡ done (waited s file args w.program.pid fds.0 st)
      by_itself st alone turn woken over =
          ap (λ t. finish t w.program (launched_as s file args w.program.pid fds.0)) alone
          ∙ finish-ending w.program (launched_as s file args w.program.pid fds.0) st turn refl woken
              over

      -- A run of a program that exits by itself, with a code below 256, while the executor waits for
      -- it and no termination signal comes, ends and returns EXIT_OK, if SHELL is set, the status file
      -- does not exist, the directories can be prepared, the pipe, the output file and, if it is
      -- given, the status file can be opened, malloc allocates, the buffer's size is from 1 to 2^63,
      -- the program writes fewer than 2^63 bytes and its output comes to its end, there is a status
      -- file or a callback API, with fewer than 2^32 - 1 retries, no signal stops the computing of the
      -- working directory's size, which is below 2^63, the run-after command, if there is one, comes to
      -- its end, and with --no-exit a termination signal comes. It has then saved the last bytes that
      -- fit into the buffer, and how many are missing, if any are; it has reported the start, the generated
      -- files if they are watched and, at the end, the status EXITED with the code and the size.
      pub run_app_exit :
          (code : ℕ) (after : Option ProgramExecutor)
          → no_exit_wait s.no_exit (interrupted_by w) w.signal_comes ≡ done true
          → w.terminated ≡ none
          → w.program.turn ≡ ending (code * 256)
          → code < 256
          → run_after decimal
              (shell_or_sh shell)
              s
              (waited s file args w.program.pid fds.0 (code * 256))
              w.after
            ≡ done after
          → Ran s w
              (waited s file args w.program.pid fds.0 (code * 256))
              (("status", text "EXITED") ∷ ("exitCode", number (pos code)) ∷ [])
              created
              after
      run_app_exit code after exits alone turn h command =
          let e : ProgramExecutor = launched_as s file args w.program.pid fds.0 in
          run_app_over _ _ after
            (by_itself (code * 256) alone turn (woken-wait_in_background_exit e code)
              (ap is_running (status-wait_in_background_exit e code)))
            (exited_over (wait_in_background e (some (code * 256))).0
              (status-wait_in_background_exit e code))
            (status_fields-exit object text number to_string e code h) command exits

      -- A run of a program that is ended by a signal from 1 to 126, with or without a core dump, while
      -- the executor waits for it and no termination signal comes, ends and returns EXIT_OK, if SHELL is
      -- set, the status file does not exist, the directories can be prepared, the pipe, the output file and, if it is
      -- given, the status file can be opened, malloc allocates, the buffer's size is from 1 to 2^63,
      -- the program writes fewer than 2^63 bytes and its output comes to its end, there is a status
      -- file or a callback API, with fewer than 2^32 - 1 retries, no signal stops the computing of the
      -- working directory's size, which is below 2^63, the run-after command, if there is one, comes to
      -- its end, and with --no-exit a termination signal comes. It has then saved the last bytes that
      -- fit into the buffer, and how many are missing, if any are; it has reported the start, the generated
      -- files if they are watched and, at the end, the status SIGNALLED with the signal and the size.
      pub run_app_signal :
          (signal dumped : ℕ) (after : Option ProgramExecutor)
          → no_exit_wait s.no_exit (interrupted_by w) w.signal_comes ≡ done true
          → w.terminated ≡ none
          → w.program.turn ≡ ending (dumped * 128 + signal)
          → 1 ≤ signal
          → signal < 127
          → dumped ≤ 1
          → run_after decimal
              (shell_or_sh shell)
              s
              (waited s file args w.program.pid fds.0 (dumped * 128 + signal))
              w.after
            ≡ done after
          → Ran s w
              (waited s file args w.program.pid fds.0 (dumped * 128 + signal))
              (("status", text "SIGNALLED") ∷ ("exitSignal", number (pos signal)) ∷ [])
              created
              after
      run_app_signal signal dumped after exits alone turn h k d command =
          let e : ProgramExecutor = launched_as s file args w.program.pid fds.0 in
          run_app_over _ _ after
            (by_itself (dumped * 128 + signal) alone turn
              (woken-wait_in_background_signal e signal dumped h k d)
              (ap is_running (status-wait_in_background_signal e signal dumped h k d)))
            (signalled_over (wait_in_background e (some (dumped * 128 + signal))).0
              (status-wait_in_background_signal e signal dumped h k d))
            (status_fields-signal object text number to_string e signal dumped h k d) command exits
