-- ===== src/ProgramExecutor/Status.antt =====
-- What the status of a program says, and how it changes (src/ProgramExecutor.cpp).
use ml_gridengine_executor.Base.{ℕ, ◌+◌, ◌*◌, ◌≤◌, ◌<◌, ◌≡◌, some, true, arith, pos, negsuc}
use ml_gridengine_executor.ProgramExecutor.{
  exited, signalled, ProgramExecutor, exit_code, exit_signal, wait_in_background,
}

-- When waitpid reports an exit with a code below 256, `exitCode` gives it back, and `exitSignal`
-- gives -1.
pub exit_code-wait_in_background :
    (e : ProgramExecutor) (code : ℕ)
    → code < 256
    → (exit_code (wait_in_background e (some (code * 256))).0 ≡ pos code)
      × (exit_signal (wait_in_background e (some (code * 256))).0 ≡ negsuc 0)
unfolding wait_in_background exit_code exit_signal
exit_code-wait_in_background e code h = ground arith

-- When waitpid reports a signal from 1 to 126, with or without a core dump, `exitSignal` gives it
-- back, and `exitCode` gives -1.
pub exit_signal-wait_in_background :
    (e : ProgramExecutor) (signal dumped : ℕ)
    → 1 ≤ signal
    → signal < 127
    → dumped ≤ 1
    → (exit_signal (wait_in_background e (some (dumped * 128 + signal))).0 ≡ pos signal)
      × (exit_code (wait_in_background e (some (dumped * 128 + signal))).0 ≡ negsuc 0)
unfolding wait_in_background exit_code exit_signal
exit_signal-wait_in_background e signal dumped h k d = ground arith

pub status-wait_in_background_exit :
    (e : ProgramExecutor) (code : ℕ) → (wait_in_background e (some (code * 256))).0.status ≡ exited
unfolding wait_in_background
status-wait_in_background_exit e code = ground arith

pub woken-wait_in_background_exit :
    (e : ProgramExecutor) (code : ℕ) → (wait_in_background e (some (code * 256))).1 ≡ true
unfolding wait_in_background
woken-wait_in_background_exit e code = ground arith

pub status-wait_in_background_signal :
    (e : ProgramExecutor) (signal dumped : ℕ)
    → 1 ≤ signal
    → signal < 127
    → dumped ≤ 1
    → (wait_in_background e (some (dumped * 128 + signal))).0.status ≡ signalled
unfolding wait_in_background
status-wait_in_background_signal e signal dumped h k d = ground arith

pub woken-wait_in_background_signal :
    (e : ProgramExecutor) (signal dumped : ℕ)
    → 1 ≤ signal
    → signal < 127
    → dumped ≤ 1
    → (wait_in_background e (some (dumped * 128 + signal))).1 ≡ true
unfolding wait_in_background
woken-wait_in_background_signal e signal dumped h k d = ground arith
