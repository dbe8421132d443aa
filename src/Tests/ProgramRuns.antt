-- ===== src/Tests/ProgramRuns.antt =====
-- Runs of `ProgramExecutor` (src/ProgramExecutor.cpp).
use ml_gridengine_executor.Base.{[], ◌∷◌, true, false, none, some, pos}
use ml_gridengine_executor.ProgramExecutor.{ProgramExecutor, running, Turn}

abbrev pub shell : ProgramExecutor
shell = record {
  args = "sh" ∷ [];
  environ = [];
  work_dir = "";
  capture_output = true;
  status = running;
  wait_status = 0;
  process_id = pos 42;
  pipe_fd = 5;
  pipe_closed = false;
}

-- The program goes on through two waits, and ends in the third.
abbrev pub still : Turn
still = record { before = none; during = none; late = none }

abbrev pub ends : Turn
ends = record { before = none; during = some (some 9); late = none }
