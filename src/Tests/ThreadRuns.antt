-- ===== src/Tests/ThreadRuns.antt =====
-- Two threads kill a program (src/ProgramExecutor.cpp), which ends at the first signal.
use ml_gridengine_executor.Base.{ℕ, ◌≡◌, refl, Bool, [], ◌∷◌, true, take, none, some, pos}
use ml_gridengine_executor.ProgramExecutor.{
  ProgramExecutor, Turn, exited, signalled, sigint, sigkill, kill, wait_in_background,
  kill_if_running, wifexited, wifsignaled,
}
use ml_gridengine_executor.ProgramExecutor.Kill.{addressed}
use ml_gridengine_executor.ProgramExecutor.Threads.{
  Process, Attempt, alive, Threads, recorded, first, idle, waits, initial, ends, reaps, records,
  asks, enters, sends, starts_waiting, wakes, Reach, here, next,
}
use ml_gridengine_executor.ProgramExecutor.Threads.Escalation.{one_escalation}
use ml_gridengine_executor.ProgramExecutor.Threads.Truth.{told_by_waitpid}
use ml_gridengine_executor.Tests.ProgramRuns.{shell, still}
use ml_gridengine_executor.ProgramExecutor.Threads.Calls.{timed_by, kill-Reach}

-- All waits have timeouts.
abbrev timed : Attempt → Bool
timed a = true

-- One call has sent a signal and waits, the other waits for it.
abbrev one_waits : Threads
one_waits = record (initial shell) { stage = waits first; queued = 1; sent = (pos 42, sigint) ∷ [] }

to_one_waits : Reach timed (initial shell) one_waits
unfolding kill_if_running
to_one_waits =
    next
      (next (next (next (next here (asks refl)) (asks refl)) (enters 1 refl refl))
        (sends first refl))
      (starts_waiting first refl refl)

-- The program has ended with SIGINT, and the first call has been woken.
abbrev one_woken : Threads
one_woken = record one_waits {
  executor = (wait_in_background shell (some 2)).0;
  process = recorded 2;
  stage = idle;
}

to_one_woken : Reach timed (initial shell) one_woken
unfolding wait_in_background
to_one_woken =
    next (next (next (next to_one_waits (ends 2 refl)) (reaps 2 refl)) (records 2 refl))
      (wakes first refl refl)

one_escalation_example :
    (n : ℕ) × (one_woken.sent ≡ take n (addressed (pos 42) (sigint ∷ sigint ∷ sigkill ∷ [])))
one_escalation_example = one_escalation shell to_one_woken

told_by_waitpid_example :
    (one_woken.executor.status ≡ exited
      → (st : ℕ) × (one_woken.process ≡ recorded st)
        × (wifexited st ≡ true)
        × (one_woken.executor.wait_status ≡ st))
    × (one_woken.executor.status ≡ signalled
        → (st : ℕ) × (one_woken.process ≡ recorded st)
          × (wifsignaled st ≡ true)
          × (one_woken.executor.wait_status ≡ st))
told_by_waitpid_example = told_by_waitpid shell refl to_one_woken

abbrev killing : Turn
killing = record { before = none; during = some (some 9); late = none }

-- A call of `kill` whose program ends at the SIGKILL.
abbrev killed : ProgramExecutor
killed = (wait_in_background shell (some 9)).0

silent : {p : Process} (st : ℕ) → none ≡ some (some st) → p ≡ alive
silent st h = absurd (cc h)

kill-Reach_example :
    (u : Threads) × Reach (timed_by (pos 20) (pos 30) (pos 60)) (initial shell) u
    × (u.executor ≡ killed)
    × (u.sent ≡ (pos 42, sigint) ∷ (pos 42, sigint) ∷ (pos 42, sigkill) ∷ [])
    × (u.stage ≡ idle)
unfolding kill
kill-Reach_example =
    kill-Reach (pos 20) (pos 30) (pos 60) still still killing shell refl
      (
        silent,
        (silent, (silent, (silent, (silent, (silent, (silent, ((λ st h. refl), (silent, tt)))))))),
      )
      refl
