-- ===== src/App/Report.antt =====
-- What a run reports, and when the reports end (src/main.cpp).
use Prim.Native.String.{String}
use text.Mathlib.Text.{◌==◌}
use ml_gridengine_executor.Base.{
  ℕ, ◌+◌, ◌^◌, ◌<◌, ◌≡◌, refl, ap, List, [], ◌∷◌, ◌++◌, Bool, true, false, not, ◌&&◌, ℤ, pos, arith,
  of_word_small, Bool-cases, inl, inr,
}
use ml_gridengine_executor.ProgramExecutor.{ProgramExecutor}
use ml_gridengine_executor.Callback.{Action, Manager, enabled, program_started}
use ml_gridengine_executor.Callback.Report.{
  reporting, finished_with, update_status-reporting, finished-reporting,
}
use ml_gridengine_executor.Callback.{status_fields}
use ml_gridengine_executor.Watcher.{collect_all}
use ml_gridengine_executor.Watcher.Keep.{deliver-Alike, Alike}
use ml_gridengine_executor.DirSize.Sum.{total, calculate_dir_size-total}
use ml_gridengine_executor.App.Monad.{done}
use ml_gridengine_executor.App.{World, report_started, report_files, work_dir_size, report_finished}

module _ {ℓ} {Json : Type ℓ} (object : List (String × Json) → Json) (text : String → Json)
    (number : ℤ → Json) (to_string : Json → String) where
  -- The document of `programStarted`.
  abbrev pub started_doc : String → ℤ → Json
  started_doc host_name port = object (
      ("executor.hostname", text host_name)
      ∷ ("executor.port", number port)
      ∷ ("status", text "RUNNING")
      ∷ [])

  pub report_started-reporting :
      (w : World Json) (m : Manager)
      → m.max_retry + 1 < 2 ^ 32
      → enabled m ≡ true
      → (not (m.status_file == "") && not w.start_opens) ≡ false
      → report_started object text number to_string w m
        ≡ done (
          reporting object text number to_string w.start_posts m (started_doc w.host_name w.port),
          record m { host_name = w.host_name; port = w.port },
        )
  unfolding report_started program_started
  report_started-reporting w m bounded on saved =
      rw
        (
          on,
          update_status-reporting object text number to_string w.start_posts m w.start_opens bounded
              (started_doc w.host_name w.port) saved,
        )
        refl

  pub report_files-Alike :
      (watch : Bool) (w : World Json) (m : Manager)
      → m.max_retry + 1 < 2 ^ 32
      → (actions : List Action) × (m' : Manager) × (report_files object text number to_string watch
            w m
          ≡ done (actions, m'))
        × Alike m m'
  unfolding report_files
  report_files-Alike watch w m bounded = elim (Bool-cases (watch && enabled m)) [
    | inl c ↦
        let (actions, m', eq, alike) =
          deliver-Alike object text number to_string w.file_posts 0
            (w.generated ++ collect_all w.load_json_file w.is_file) m bounded in
        (actions, m', rw (c, eq) refl, alike)
    | inr c ↦ ([], m, rw c refl, refl)
  ]

  pub report_finished-reporting :
      (w : World Json) (m : Manager) (e : ProgramExecutor) (size : ℤ)
      (fields : List (String × Json))
      → m.max_retry + 1 < 2 ^ 32
      → enabled m ≡ true
      → (not (m.status_file == "") && not w.finish_opens) ≡ false
      → status_fields object text number to_string e ≡ fields
      → report_finished object text number to_string w m e size
        ≡ done (
            reporting object text number to_string w.finish_posts m
              (finished_with object text number to_string w.finish_posts m size fields))
  unfolding report_finished
  report_finished-reporting w m e size fields bounded on saved eq =
      rw
        (
          on,
          finished-reporting object text number to_string w.finish_posts m w.finish_opens bounded e
              size fields saved eq,
        )
        refl

pub work_dir_size-total {ℓ} :
    {Json : Type ℓ} (w : World Json)
    → ((n : ℕ) → w.interrupted n ≡ false)
    → w.size_interrupted ≡ false
    → total w.tree < 2 ^ 63
    → work_dir_size w ≡ done (pos (total w.tree))
unfolding work_dir_size
work_dir_size-total w never off small =
    rw (calculate_dir_size-total w.interrupted never w.tree (omega (arith, small)), off)
      (ap (λ z. done z) (of_word_small (total w.tree) small))
