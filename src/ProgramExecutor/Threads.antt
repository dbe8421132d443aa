-- ===== src/ProgramExecutor/Threads.antt =====
-- A program that runs, the thread that waits for it, and any number of threads that call `kill`
-- (src/ProgramExecutor.cpp), as a relation of steps: each is what one thread does while it holds
-- `_waitMutex`, or the operating system does.
pub mod Escalation
pub mod Truth
pub mod Ending
pub mod Calls
use ml_gridengine_executor.Base.{ℕ, zero, suc, ◌≡◌, Bool, List, [], ◌++◌, true, false, some, ℤ}
use ml_gridengine_executor.ProgramExecutor.{
  ProgramExecutor, Signal, sigint, sigkill, is_running, wait_in_background, kill_if_running,
  give_up,
}

-- The process: it has ended with a status that nobody has asked for, `waitpid` has returned this
-- status, or `_waitInBackground` has kept it and is over.
pub data Process : Type 0 where
  alive : Process
  ended reaped recorded : ℕ → Process

-- The three attempts of `kill`, and the signal of each.
pub data Attempt : Type 0 where
  first second third : Attempt

abbrev pub signal_of : Attempt → Signal
signal_of first = sigint
signal_of second = sigint
signal_of third = sigkill

-- How far the call of `kill` is that holds `_killMutex`: between its calls of `_killIfRunning` and
-- `wait` the other mutex is free.
pub data Stage : Type 0 where
  idle : Stage
  signals calls_wait waits : Attempt → Stage
  gives_up : Stage

-- Where a call goes on whose wait has timed out.
abbrev pub after_timeout : Attempt → Stage
after_timeout first = signals second
after_timeout second = signals third
after_timeout third = gives_up

-- `queued` calls of `kill` wait for `_killMutex`; `sent` holds the signals sent, the latest last.
pub record Threads : Type 0 where
  pub executor : ProgramExecutor
  pub process : Process
  pub stage : Stage
  pub queued : ℕ
  pub sent : List (ℤ × Signal)

abbrev pub initial : ProgramExecutor → Threads
initial e = record { executor = e; process = alive; stage = idle; queued = 0; sent = [] }

-- `timed a` tells whether the wait of the attempt `a` has a timeout above 0: any other waits until it
-- is woken.
pub data Step (timed : Attempt → Bool) (t : Threads) : Threads → Type 0 where
  ends : (st : ℕ) → t.process ≡ alive → Step timed t (record t { process = ended st })
  reaps : (st : ℕ) → t.process ≡ ended st → Step timed t (record t { process = reaped st })
  records :
      (st : ℕ)
      → t.process ≡ reaped st
      → Step timed t (record t {
        executor = (wait_in_background t.executor (some st)).0;
        process = recorded st;
      })
  asks : is_running t.executor.status ≡ true → Step timed t (record t { queued = suc t.queued })
  enters :
      (n : ℕ)
      → t.queued ≡ suc n
      → t.stage ≡ idle
      → Step timed t (record t { stage = signals first; queued = n })
  sends :
      (a : Attempt)
      → t.stage ≡ signals a
      → Step timed t (record t {
        stage = calls_wait a;
        sent = t.sent ++ kill_if_running t.executor (signal_of a);
      })
  finds_over :
      (a : Attempt)
      → t.stage ≡ calls_wait a
      → is_running t.executor.status ≡ false
      → Step timed t (record t { stage = idle })
  starts_waiting :
      (a : Attempt)
      → t.stage ≡ calls_wait a
      → is_running t.executor.status ≡ true
      → Step timed t (record t { stage = waits a })
  wakes :
      (a : Attempt)
      → t.stage ≡ waits a
      → is_running t.executor.status ≡ false
      → Step timed t (record t { stage = idle })
  times_out :
      (a : Attempt)
      → t.stage ≡ waits a
      → timed a ≡ true
      → Step timed t (record t { stage = after_timeout a })
  stops :
      t.stage ≡ gives_up → Step timed t (record t { executor = give_up t.executor; stage = idle })

pub data Reach (timed : Attempt → Bool) (t : Threads) : Threads → Type 0 where
  here : Reach timed t t
  next : {u v : Threads} → Reach timed t u → Step timed u v → Reach timed t v
