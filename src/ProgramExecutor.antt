-- ===== src/ProgramExecutor.antt =====
-- `ProgramExecutor` (src/ProgramExecutor.h, src/ProgramExecutor.cpp): the status of the child process
-- and the calls that change it. What the operating system answers (pipe, fork, waitpid, and what
-- happens while a thread waits) is an argument of the call.
pub mod Sealed
pub mod Kill
pub mod Child
pub mod Stop
pub mod Status
pub mod Threads
use Prim.Native.String.{String}
use mathlib.Core.Option
use ml_gridengine_executor.Base.{
  ℕ, ◌+◌, ◌*◌, ◌/◌, ◌%◌, List, [], ◌∷◌, ◌++◌, Bool, true, false, not, ◌&&◌, Option, none, some,
  ◌==◌, leb, if◌then◌else◌, ℤ, pos, negsuc,
}
use ml_gridengine_executor.Result.{
  Result, ok, throws, illegal_state, invalid_argument, system_error,
}

pub data ProgramStatus : Type 0 where
  not_started running exited signalled cannot_kill : ProgramStatus

-- The mutexes, the condition and the thread have no field: a call is what it does under its locks.
pub record ProgramExecutor : Type 0 where
  pub args : List String
  pub environ : List (String × String)
  pub work_dir : String
  pub capture_output : Bool
  pub status : ProgramStatus
  pub wait_status : ℕ
  pub process_id : ℤ
  pub pipe_fd : ℕ
  pub pipe_closed : Bool

-- The constructor.
unfoldable pub new : List String → List (String × String) → String → Bool → Result ProgramExecutor
new [] environ work_dir capture = throws invalid_argument
new (file ∷ rest) environ work_dir capture = ok (record {
  args = file ∷ rest;
  environ = environ;
  work_dir = work_dir;
  capture_output = capture;
  status = not_started;
  wait_status = 0;
  process_id = negsuc 0;
  pipe_fd = 0;
  pipe_closed = false;
})

-- How Linux packs the status that waitpid gives (sys/wait.h).
unfoldable pub wifexited : ℕ → Bool
wifexited st = st % 128 == 0

unfoldable pub wexitstatus : ℕ → ℕ
wexitstatus st = st / 256 % 256

unfoldable pub wtermsig : ℕ → ℕ
wtermsig st = st % 128

unfoldable pub wifsignaled : ℕ → Bool
wifsignaled st = not (st % 128 == 0) && not (st % 128 == 127)

abbrev pub is_running : ProgramStatus → Bool
is_running running = true
is_running _ = false

abbrev pub is_not_started : ProgramStatus → Bool
is_not_started not_started = true
is_not_started _ = false

abbrev pub is_exited : ProgramStatus → Bool
is_exited exited = true
is_exited _ = false

abbrev pub is_signalled : ProgramStatus → Bool
is_signalled signalled = true
is_signalled _ = false

-- `exitCode()`
unfoldable pub exit_code : ProgramExecutor → ℤ
unfolding wexitstatus
exit_code e = if is_exited e.status then pos (wexitstatus e.wait_status) else negsuc 0

-- `exitSignal()`
unfoldable pub exit_signal : ProgramExecutor → ℤ
unfolding wtermsig
exit_signal e = if is_signalled e.status then pos (wtermsig e.wait_status) else negsuc 0

-- What `start()` leaves in the parent process; `pid` is what fork returned, -1 if it failed.
unfoldable pub launched : ProgramExecutor → Option (ℕ × ℕ) → ℤ → Option ProgramExecutor
launched e pipe pid =
    if e.capture_output
    then (elim pipe [
      | none ↦ none
      | some (read_end, write_end) ↦
          some (record e { process_id = pid; pipe_fd = read_end; status = running })
    ])
    else some (record e { process_id = pid; status = running })

abbrev or_system_error : Option ProgramExecutor → Result ProgramExecutor
or_system_error none = throws system_error
or_system_error (some e) = ok e

-- `start()`: `pipe` is what the call of pipe gave, the two descriptors if it succeeded.
unfoldable pub start : ProgramExecutor → Option (ℕ × ℕ) → ℤ → Result ProgramExecutor
unfolding launched
start e pipe pid =
    if is_not_started e.status then or_system_error (launched e pipe pid) else throws illegal_state

-- `_waitInBackground()`, `none` for a waitpid that fails: the new state, and whether the threads that
-- wait for the program are woken.
unfoldable pub wait_in_background : ProgramExecutor → Option ℕ → ProgramExecutor × Bool
unfolding wifexited wifsignaled
wait_in_background e none = (e, false)
wait_in_background e (some st) =
    if wifexited st
    then (record e { status = exited; wait_status = st }, true)
    else if wifsignaled st
    then (record e { status = signalled; wait_status = st }, true)
    else (e, false)

-- What the background thread does around a wait: its waitpid may return before the wait begins, while
-- it lasts, or when it has timed out and the mutex is free again, with what it gave.
pub record Turn : Type 0 where
  pub before : Option (Option ℕ)
  pub during : Option (Option ℕ)
  pub late : Option (Option ℕ)

unfoldable pub background : ProgramExecutor → Option (Option ℕ) → ProgramExecutor × Bool
unfolding wait_in_background
background e none = (e, false)
background e (some st) = wait_in_background e st

abbrev pub is_positive : ℤ → Bool
is_positive (pos n) = leb 1 n
is_positive (negsuc n) = false

-- `wait(timeout)` on a program that has been started. `none` means that the call does not return.
unfoldable pub wait_started : ProgramExecutor → ℤ → Turn → Option (Bool × ProgramExecutor)
wait_started e timeout turn =
    let (e', _) = background e turn.before in
    let (e'', woken) = background e' turn.during in
    if is_running e'.status
    then (if woken
        then some (true, e'')
        else if is_positive timeout
        then some (false, (background e'' turn.late).0)
        else none)
    else some (true, e')

-- `wait(timeout)`
unfoldable pub wait : ProgramExecutor → ℤ → Turn → Result (Option (Bool × ProgramExecutor))
unfolding wait_started background
wait e timeout turn =
    if is_not_started e.status then throws illegal_state else ok (wait_started e timeout turn)

pub data Signal : Type 0 where
  sigint sigkill : Signal

-- `_killIfRunning(signal)`: the signals sent, each with the process it goes to.
unfoldable pub kill_if_running : ProgramExecutor → Signal → List (ℤ × Signal)
kill_if_running e signal = if is_running e.status then (e.process_id, signal) ∷ [] else []

-- `(long)(seconds * 1000)` for a whole number of seconds
unfoldable pub to_millis : ℤ → ℤ
to_millis (pos n) = pos (n * 1000)
to_millis (negsuc n) = negsuc (n * 1000 + 999)

-- The last step of `kill`: `_status = CANNOT_KILL`, and the pipe is closed
abbrev pub give_up : ProgramExecutor → ProgramExecutor
give_up e = record e { status = cannot_kill; pipe_closed = true }

-- What `kill` does after a wait: it is done, or goes on with `next`.
unfoldable pub after_wait :
    List (ℤ × Signal)
    → (ProgramExecutor → Option (List (ℤ × Signal) × ProgramExecutor))
    → Option (Bool × ProgramExecutor)
    → Option (List (ℤ × Signal) × ProgramExecutor)
after_wait sent next none = none
after_wait sent next (some (true, e)) = some (sent, e)
after_wait sent next (some (false, e)) = Option.map (λ (more, e'). (sent ++ more, e')) (next e)

-- One step of `kill`: a signal, a wait, and what follows.
unfoldable pub kill_step :
    Signal
    → ℤ
    → Turn
    → (ProgramExecutor → Option (List (ℤ × Signal) × ProgramExecutor))
    → ProgramExecutor
    → Option (List (ℤ × Signal) × ProgramExecutor)
kill_step signal seconds turn next e =
    after_wait (kill_if_running e signal) next (wait_started e (to_millis seconds) turn)

-- `kill(firstWait, secondWait, finalWait)`: the signals sent and the state after the call. `none`
-- means that the call does not return.
unfoldable pub kill :
    ℤ → ℤ → ℤ → Turn → Turn → Turn → ProgramExecutor → Option (List (ℤ × Signal) × ProgramExecutor)
unfolding kill_step after_wait wait_started background kill_if_running to_millis
kill first second final t₁ t₂ t₃ e =
    if is_running e.status
    then kill_step sigint first t₁
        (kill_step sigint second t₂ (kill_step sigkill final t₃ (λ e'. some ([], give_up e')))) e
    else some ([], e)
