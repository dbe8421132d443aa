-- ===== src/App/Refuse.antt =====
-- A run that finds the status file of an earlier one (src/main.cpp, src/BaseApp.cpp).
use Prim.Native.String.{String}
use text.Mathlib.Text.{◌==◌}
use ml_gridengine_executor.Base.{
  ℕ, ◌≡◌, ◌≢◌, ◌⊎◌, inl, inr, refl, ap, sym, ◌∙◌, arith, List, ◌∷◌, Bool, true, false, not, ◌&&◌,
  none, some, ℤ,
}
use ml_gridengine_executor.Result.{ok, throws, fault}
use ml_gridengine_executor.Callback.Report.{same_text, different_text}
use ml_gridengine_executor.Heap.{PairingHeap}
use ml_gridengine_executor.Options.{Settings, exit_ok, exit_software, base_main, Paths, with_args}
use ml_gridengine_executor.Options.Laws.{base_main_ok}
use ml_gridengine_executor.App.Monad.{Run, ◌>>=◌, done}
use ml_gridengine_executor.App.{
  World, Outcome, refused, is_refused, shell_or_sh, run_started, run_app, run_status,
  report_started, report_files, work_dir_size, report_finished, no_exit_wait, interrupted_by,
}
use ml_gridengine_executor.ProgramExecutor.Sealed.{output_over}
use ml_gridengine_executor.Callback.{new_manager}
use ml_gridengine_executor.App.Program.{launch, finish}
use ml_gridengine_executor.App.Output.{collect, save}
use ml_gridengine_executor.App.After.{run_after}
use ml_gridengine_executor.App.Directories.{prepare}

and_false : (a : Bool) → (a && false) ≡ false
and_false a = ground arith

module _ {ℓ} {Json : Type ℓ} (object : List (String × Json) → Json) (text : String → Json)
    (number : ℤ → Json) (to_string : Json → String) (decimal : ℤ → String) (H : PairingHeap)
    (malloc : ℕ → List ℕ) where
  run_app-refused :
      (s : Settings) (w : World Json) (shell : String)
      → w.shell ≡ some shell
      → is_refused s.status_file w.status_exists ≡ true
      → run_app object text number to_string decimal H malloc s w ≡ done refused
  unfolding run_app
  run_app-refused s w shell e f = rw (e, ◌>>=◌, f) refl

  -- A run that is not refused ends, if it ends, with EXIT_OK.
  abbrev Exits : Run Outcome → Type 0
  Exits r = (o : Outcome) → r ≡ done o → o.status ≡ exit_ok

  bind-Exits {κ} :
      {A : Type κ} (r : Run A) (f : A → Run Outcome) → ((a : A) → Exits (f a)) → Exits (r >>= f)
  bind-Exits (ok none) f h o e = absurd (cc e)
  bind-Exits (ok (some a)) f h o e = h a o e
  bind-Exits (throws x) f h o e = absurd (cc e)
  bind-Exits fault f h o e = absurd (cc e)

  done-Exits : (o : Outcome) → o.status ≡ exit_ok → Exits (done o)
  done-Exits o h o' e = let p : o ≡ o' = cc e in sym (ap (λ x. x.status) p) ∙ h

  run_started-Exits :
      (created : List String) (shell : String) (s : Settings) (w : World Json)
      → Exits (run_started object text number to_string decimal H malloc created shell s w)
  unfolding run_started
  run_started-Exits created shell s w = bind-Exits (launch s w.program) _ λ e.
      bind-Exits
        (report_started object text number to_string w
          (new_manager s.status_file s.callback_api w.retry))
        _
        λ start. bind-Exits (finish w.terminated w.program e) _ λ e'.
          bind-Exits (report_files object text number to_string s.watch_generated w start.1) _
            λ files. bind-Exits (collect H malloc s.buffer_size (w.reads (output_over e'))) _ λ b.
              bind-Exits (save H s.output_file w.opens b) _ λ saved.
                bind-Exits (work_dir_size w) _ λ size.
                  bind-Exits (report_finished object text number to_string w files.1 e' size) _
                    λ finished. bind-Exits (run_after decimal shell s e' w.after) _ λ after.
                      bind-Exits (no_exit_wait s.no_exit (interrupted_by w) w.signal_comes) _
                        λ waited. done-Exits _ refl

  run_app-Exits :
      (s : Settings) (w : World Json) (shell : String)
      → w.shell ≡ some shell
      → is_refused s.status_file w.status_exists ≡ false
      → Exits (run_app object text number to_string decimal H malloc s w)
  unfolding run_app
  run_app-Exits s w shell e f =
      rw (e, ◌>>=◌, f)
        (bind-Exits (prepare w.file_system s) _
          λ created. run_started-Exits created (shell_or_sh shell) s w)

  -- If SHELL is set: when a status file is given and exists, `runApp` starts no program, saves and posts
  -- nothing, and returns EXIT_SOFTWARE, while the process exits with EXIT_OK all the same; when none is
  -- given, or it does not exist, `runApp` returns, if it returns, EXIT_OK.
  pub base_main-refused :
      (paths : Paths) (s : Settings) (w : World Json) (shell arg : String) (args : List String)
      → s.help_requested ≡ false
      → w.shell ≡ some shell
      → (s.status_file ≢ ""
          → w.status_exists ≡ true
          → (run_app object text number to_string decimal H malloc
                (with_args paths s (arg ∷ args))
                w
              ≡ done refused)
            × (refused.status ≡ exit_software)
            × (base_main paths
                  (run_status object text number to_string decimal H malloc w)
                  s
                  (arg ∷ args)
                ≡ done exit_ok))
        × ((s.status_file ≡ "") ⊎ (w.status_exists ≡ false)
            → (o : Outcome)
            → run_app object text number to_string decimal H malloc
                (with_args paths s (arg ∷ args))
                w
              ≡ done o
            → o.status ≡ exit_ok)
  unfolding run_status with_args is_refused
  base_main-refused paths s w shell arg args h e = (
    λ given exists.
        let named : (s.status_file == "") ≡ false = different_text s.status_file "" given in
        let s' : Settings = with_args paths s (arg ∷ args) in
        let over = run_app-refused s' w shell e (rw (named, exists) refl) in
        (
          over,
          refl,
          base_main_ok paths (run_status object text number to_string decimal H malloc w) s arg args
              exit_software h (rw (over) refl),
        ),
    λ absent. run_app-Exits (with_args paths s (arg ∷ args)) w shell e (elim absent [
      | inl q ↦ rw (same_text s.status_file "" q) refl
      | inr q ↦ rw q (and_false (not (s.status_file == "")))
    ]),
  )
