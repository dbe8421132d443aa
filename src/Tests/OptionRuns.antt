-- ===== src/Tests/OptionRuns.antt =====
-- Runs of the options, and of the environments they set (src/BaseApp.cpp, src/ProgramExecutor.cpp, src/main.cpp).
use Prim.Native.String.{String}
use ml_gridengine_executor.Base.{
  ℕ, ◌*◌, ◌-◌, ◌^◌, ◌≡◌, ◌≤◌, refl, arith, List, [], ◌∷◌, true, false, none, some, pos, take,
}
use ml_gridengine_executor.Result.{ok}
use ml_gridengine_executor.Environ.{Environ, get}
use ml_gridengine_executor.ProgramExecutor.{ProgramExecutor, sigint, sigkill, wait_in_background}
use ml_gridengine_executor.ProgramExecutor.Kill.{is_final, addressed}
use ml_gridengine_executor.ProgramExecutor.Child.{child_variables, child_variables-or_else}
use ml_gridengine_executor.ProgramExecutor.Stop.{destroy}
use ml_gridengine_executor.ProgramExecutor.Stop.Ends.{destroy-Ends}
use ml_gridengine_executor.Callback.{post_loop}
use ml_gridengine_executor.Callback.Retry.{post_loop_forever}
use ml_gridengine_executor.Options.{Settings, defaults, Parsers, configure}
use ml_gridengine_executor.Options.Laws.{env_options, configure-last_value}
use ml_gridengine_executor.App.After.{after_environ}
use ml_gridengine_executor.App.After.Variables.{after_environ_exit}
use ml_gridengine_executor.Tests.ProgramRuns.{shell, still, ends}

abbrev pub parsers : Parsers
parsers = record {
  parse = λ s. none;
  parse_float = λ s. none;
  match_size = λ s. none;
  to_upper = λ s. s;
}

abbrev pairs : List (String × String)
pairs = ("A", "1=2") ∷ ("B", "") ∷ ("A", "3") ∷ []

configure-last_value_example :
    (s' : Settings) × (configure parsers (λ pattern text. true) (env_options pairs) defaults
      ≡ ok s')
    × (get "A" s'.environ ≡ some "3")
unfolding get
configure-last_value_example =
    configure-last_value parsers (λ pattern text. true) pairs defaults "A" refl
      ((refl, refl, (refl, refl, (refl, refl, tt))))

abbrev environ : Environ
environ = ("HOME", "/work") ∷ []

child_variables-or_else_example :
    child_variables environ (λ name. some "own") "PYTHONUNBUFFERED" ≡ some "own"
unfolding get
child_variables-or_else_example =
    child_variables-or_else environ (λ name. some "own") "PYTHONUNBUFFERED" (refl, tt)

destroy-Ends_example :
    (n : ℕ) × (e' : ProgramExecutor) × (destroy
        (λ s. none)
        (λ name. some "soon")
        (record { first = still; second = still; final = ends })
        shell
      ≡ some (take n (addressed (pos 42) (sigint ∷ sigint ∷ sigkill ∷ [])), e'))
    × (is_final e'.status ≡ true)
    × (1 ≤ n)
destroy-Ends_example =
    destroy-Ends (λ s. none) (λ name. some "soon")
      (record { first = still; second = still; final = ends }) shell (λ key seconds e. cc e) refl

after_environ_exit_example :
    get "ML_GRIDENGINE_PROGRAM_EXIT_CODE"
      (after_environ (λ z. "3") defaults (wait_in_background shell (some (3 * 256))).0)
    ≡ some "3"
after_environ_exit_example =
    after_environ_exit (λ z. "3") defaults shell 3 "ML_GRIDENGINE_PROGRAM_EXIT_CODE" (omega arith)

post_loop_forever_example : post_loop (λ n. false) (2 ^ 32 - 1) "{}" 100 7 5 8 ≡ none
post_loop_forever_example = post_loop_forever (λ n. false) "{}" 100 7 5 8 (λ n. refl) (omega arith)
