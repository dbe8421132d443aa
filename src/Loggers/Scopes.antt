-- ===== src/Loggers/Scopes.antt =====
-- Scopes of root loggers are undone in the end (src/Logger.cpp).
use ml_gridengine_executor.Base.{ℕ, ◌≡◌, refl, List, [], ◌∷◌, ◌++◌, none, some, ◌>>=◌}
use ml_gridengine_executor.Loggers.{Message, Code, ends, logs, scoped, run}

-- No scope sets the null pointer.
abbrev pub IsSafe : Code → Type 0
IsSafe ends = Unit
IsSafe (logs message code) = IsSafe code
IsSafe (scoped none inner code) = ⊥
IsSafe (scoped (some logger) inner code) = IsSafe inner × IsSafe code

-- Each message with the logger of the innermost scope around it.
abbrev pub routed : Code → ℕ → List (ℕ × Message)
routed ends logger = []
routed (logs message code) logger = (logger, message) ∷ routed code logger
routed (scoped none inner code) logger = []
routed (scoped (some other) inner code) logger = routed inner other ++ routed code logger

-- If no scope sets the null pointer, code that begins with a root logger logs each message with the
-- logger of the innermost scope around it, and leaves the root logger as it was.
pub run-routed :
    (code : Code) (logger : ℕ)
    → IsSafe code
    → run code (some logger) ≡ some (routed code logger, some logger)
unfolding run
run-routed ends logger s = refl
run-routed (logs message code) logger s = rw (run-routed code logger s) refl
run-routed (scoped none inner code) logger s = absurd s
run-routed (scoped (some other) inner code) logger (s, s') =
    rw (run-routed inner other s, ◌>>=◌, run-routed code logger s') refl
