-- ===== src/Tests/LoggerRuns.antt =====
-- A run of code that logs in a scope (src/Logger.cpp).
use ml_gridengine_executor.Base.{◌≡◌, refl, [], ◌∷◌, none, some}
use ml_gridengine_executor.Loggers.{Code, ends, logs, scoped, run}
use ml_gridengine_executor.Loggers.Scopes.{run-routed}

abbrev nested : Code
nested = logs ("INFO", "a") (scoped (some 7) (logs ("WARN", "b") ends) (logs ("ERROR", "c") ends))

run-routed_example :
    run nested (some 1)
    ≡ some ((1, ("INFO", "a")) ∷ (7, ("WARN", "b")) ∷ (1, ("ERROR", "c")) ∷ [], some 1)
run-routed_example = run-routed nested 1 (tt, tt)

-- With a null pointer for the root logger, as `setRootLogger(NULL)` leaves it, logging faults.
nothing_logged : run (scoped none (logs ("INFO", "a") ends) ends) (some 1) ≡ none
unfolding run
nothing_logged = refl
