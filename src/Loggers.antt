-- ===== src/Loggers.antt =====
-- `Logger` (src/Logger.h, src/Logger.cpp): the root logger, and the scopes that replace it. A logger is
-- known by a number, its address.
pub mod Scopes
use Prim.Native.String.{String}
use ml_gridengine_executor.Base.{ℕ, List, [], ◌∷◌, ◌++◌, Option, none, some, ◌>>=◌}

-- `_rootLogger`; `none` is the null pointer.
abbrev pub Root : Type 0
Root = Option ℕ

-- `setRootLogger(rootLogger)`: what it returns, and the root logger after it.
unfoldable pub set_root_logger : Root → Root → Root × Root
set_root_logger root_logger current = (current, root_logger)

-- A message: its level, and its text.
abbrev pub Message : Type 0
Message = String × String

-- `getLogger().log(level, message)`: the message, and the logger that it goes to. It faults on a null
-- pointer.
unfoldable pub log : Message → Root → Option (ℕ × Message)
log message none = none
log message (some logger) = some (logger, message)

-- ScopedRootLogger
pub record ScopedRootLogger : Type 0 where
  pub root_logger : Root
  pub original_logger : Root

-- The constructor.
unfoldable pub enter : Root → Root → ScopedRootLogger × Root
unfolding set_root_logger
enter root_logger current =
    let (original, root) = set_root_logger root_logger current in
    (record { root_logger = root_logger; original_logger = original }, root)

-- The destructor.
unfoldable pub leave : ScopedRootLogger → Root → Root
unfolding set_root_logger
leave scope current = (set_root_logger scope.original_logger current).1

-- Code that logs, in scopes that lie in each other.
pub data Code : Type 0 where
  ends : Code
  logs : Message → Code → Code
  scoped : Root → Code → Code → Code

-- What a piece of code logs, and the root logger after it.
unfoldable pub run : Code → Root → Option (List (ℕ × Message) × Root)
unfolding log enter leave
run ends root = some ([], root)
run (logs message code) root =
    let rest = run code root in
    log message root >>= λ line. rest >>= λ (lines, root'). some (line ∷ lines, root')
run (scoped root_logger inner code) root =
    let (scope, root') = enter root_logger root in
    run inner root' >>= λ (lines, root'').
    run code (leave scope root'') >>= λ (more, root₃). some (lines ++ more, root₃)
