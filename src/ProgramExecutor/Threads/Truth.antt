-- ===== src/ProgramExecutor/Threads/Truth.antt =====
-- What the status of a program says in every state that the threads reach (src/ProgramExecutor.cpp).
use ml_gridengine_executor.Base.{
  ℕ, ◌≡◌, refl, sym, subst, ◌∙◌, true, false, some, Bool, if◌then◌else◌,
}
use ml_gridengine_executor.ProgramExecutor.{
  ProgramExecutor, running, exited, signalled, wait_in_background, wifexited, wifsignaled,
}
use ml_gridengine_executor.ProgramExecutor.Threads.{
  Attempt, Process, alive, ended, reaped, recorded, Threads, initial, Step, ends, reaps, records,
  asks, enters, sends, finds_over, starts_waiting, wakes, times_out, stops, Reach, here, next,
}

-- The status is what waitpid has reported.
abbrev Reported : ProgramExecutor → Process → (ℕ → Bool) → Type 0
Reported e process test =
    (st : ℕ) × (process ≡ recorded st) × (test st ≡ true) × (e.wait_status ≡ st)

record Tells (e : ProgramExecutor) (process : Process) : Type 0 where
  exits : e.status ≡ exited → Reported e process wifexited
  signals_ : e.status ≡ signalled → Reported e process wifsignaled

abbrev TellsOf : Threads → Type 0
TellsOf t = Tells t.executor t.process

-- A status that is still to be kept is not told yet.
not_yet :
    (e : ProgramExecutor) (process process' : Process)
    → ((st : ℕ) → process ≡ recorded st → ⊥)
    → Tells e process
    → Tells e process'
not_yet e process process' h tells = record {
  exits = λ x. let (st, p, _, _) = tells.exits x in absurd (h st p);
  signals_ = λ x. let (st, p, _, _) = tells.signals_ x in absurd (h st p);
}

kept :
    (e : ProgramExecutor) (st : ℕ) (x y : Bool)
    → wifexited st ≡ x
    → wifsignaled st ≡ y
    → Tells e (reaped st)
    → Tells
        (if◌then◌else◌ {A = ProgramExecutor × Bool} x
          (record e { status = exited; wait_status = st }, true)
          (if◌then◌else◌ {A = ProgramExecutor × Bool} y
            (record e { status = signalled; wait_status = st }, true)
            (e, false))).0
        (recorded st)
kept e st true y h h' tells = record {
  exits = λ _. (st, refl, h, refl);
  signals_ = λ q. absurd (cc q);
}
kept e st false true h h' tells = record {
  exits = λ q. absurd (cc q);
  signals_ = λ _. (st, refl, h', refl);
}
kept e st false false h h' tells = not_yet e (reaped st) (recorded st) (λ st' q. cc q) tells

records-Tells :
    (e : ProgramExecutor) (st : ℕ)
    → Tells e (reaped st)
    → Tells (wait_in_background e (some st)).0 (recorded st)
unfolding wait_in_background
records-Tells e st tells = kept e st (wifexited st) (wifsignaled st) refl refl tells

Step-Tells : {timed : Attempt → Bool} {t u : Threads} → Step timed t u → TellsOf t → TellsOf u
Step-Tells {t} (ends st h) tells =
    not_yet t.executor t.process (ended st)
      (λ st' q. let bad : alive ≡ recorded st' = sym h ∙ q in cc bad) tells
Step-Tells {t} (reaps st h) tells =
    not_yet t.executor t.process (reaped st)
      (λ st' q. let bad : ended st ≡ recorded st' = sym h ∙ q in cc bad) tells
Step-Tells {t} (records st h) tells = records-Tells t.executor st (subst (Tells t.executor) h tells)
Step-Tells (asks r) tells = tells
Step-Tells (enters n q at) tells = tells
Step-Tells (sends a at) tells = tells
Step-Tells (finds_over a at r) tells = tells
Step-Tells (starts_waiting a at r) tells = tells
Step-Tells (wakes a at r) tells = tells
Step-Tells (times_out a at late) tells = tells
Step-Tells {t} (stops at) tells = record {
  exits = λ q. absurd (cc q);
  signals_ = λ q. absurd (cc q);
}

Reach-Tells : {timed : Attempt → Bool} {t u : Threads} → Reach timed t u → TellsOf t → TellsOf u
Reach-Tells here tells = tells
Reach-Tells (next r step) tells = Step-Tells step (Reach-Tells r tells)

-- In every state that a program which runs, the thread that waits for it and the threads that kill it
-- reach: a status EXITED or SIGNALLED is told only when waitpid has reported a process status of
-- that kind, and that is the one that is kept.
pub told_by_waitpid :
    {timed : Attempt → Bool} (e : ProgramExecutor) {t : Threads}
    → e.status ≡ running
    → Reach timed (initial e) t
    → (t.executor.status ≡ exited
        → (st : ℕ) × (t.process ≡ recorded st)
          × (wifexited st ≡ true)
          × (t.executor.wait_status ≡ st))
      × (t.executor.status ≡ signalled
          → (st : ℕ) × (t.process ≡ recorded st)
            × (wifsignaled st ≡ true)
            × (t.executor.wait_status ≡ st))
told_by_waitpid e {t} h r =
    let tells : TellsOf t = Reach-Tells r (record {
      exits = λ q. let bad : running ≡ exited = sym h ∙ q in absurd (cc bad);
      signals_ = λ q. let bad : running ≡ signalled = sym h ∙ q in absurd (cc bad);
    }) in
    (tells.exits, tells.signals_)
