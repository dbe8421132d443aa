-- ===== src/App/Terminated.antt =====
-- A whole run that a termination signal ends (src/main.cpp): the handler kills the program.
use Prim.Native.String.{String}
use ml_gridengine_executor.ProgramExecutor.{ProgramExecutor}
