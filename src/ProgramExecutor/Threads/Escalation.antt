-- ===== src/ProgramExecutor/Threads/Escalation.antt =====
-- The signals that a program is sent, however many threads call `kill` (src/ProgramExecutor.cpp).
use mathlib.Core.List.{append-nil}
use ml_gridengine_executor.Base.{
  ℕ, suc, ◌≡◌, refl, ap, sym, ◌∙◌, List, [], ◌∷◌, ◌++◌, true, false, some, arith, take, ℤ,
  Bool-cases, inl, inr, Bool, if◌then◌else◌,
}
use ml_gridengine_executor.ProgramExecutor.{
  ProgramExecutor, Signal, sigint, sigkill, is_running, wait_in_background, kill_if_running,
  give_up,
}
use ml_gridengine_executor.ProgramExecutor.Kill.{addressed}
use ml_gridengine_executor.ProgramExecutor.Threads.{
  Attempt, first, second, third, signal_of, Stage, idle, signals, calls_wait, waits, gives_up,
  after_timeout, Threads, initial, Step, ends, reaps, records, asks, enters, sends, finds_over,
  starts_waiting, wakes, times_out, stops, Reach, here, next,
}

abbrev pub escalation : ℤ → List (ℤ × Signal)
escalation pid = addressed pid (sigint ∷ sigint ∷ sigkill ∷ [])

abbrev attempts_before : Attempt → ℕ
attempts_before first = 0
attempts_before second = 1
attempts_before third = 2

-- How many signals a running program has been sent.
abbrev sent_by : Stage → ℕ
sent_by idle = 0
sent_by (signals a) = attempts_before a
sent_by (calls_wait a) = suc (attempts_before a)
sent_by (waits a) = suc (attempts_before a)
sent_by gives_up = 3

-- The signals sent are a beginning of the three, and as many as the call under way says while the
-- program runs.
record Escalates (pid : ℤ) (t : Threads) : Type 0 where
  same_pid : t.executor.process_id ≡ pid
  count : ℕ
  so_far : t.sent ≡ take count (escalation pid)
  on_time : is_running t.executor.status ≡ true → count ≡ sent_by t.stage

same_process :
    (e : ProgramExecutor) (st : ℕ) → (wait_in_background e (some st)).0.process_id ≡ e.process_id
unfolding wait_in_background
same_process e st = ground arith

was_running :
    (e : ProgramExecutor) (st : ℕ)
    → is_running (wait_in_background e (some st)).0.status ≡ true
    → is_running e.status ≡ true
unfolding wait_in_background
was_running e st h = ground arith

one_more :
    (pid : ℤ) (a : Attempt)
    → take (attempts_before a) (escalation pid) ++ (pid, signal_of a) ∷ []
      ≡ take (suc (attempts_before a)) (escalation pid)
one_more pid first = refl
one_more pid second = refl
one_more pid third = refl

timed : (a : Attempt) → sent_by (after_timeout a) ≡ suc (attempts_before a)
timed first = refl
timed second = refl
timed third = refl

sends-Escalates :
    (pid : ℤ) (t : Threads) (a : Attempt)
    → t.stage ≡ signals a
    → Escalates pid t
    → Escalates pid (record t {
      stage = calls_wait a;
      sent = t.sent ++ kill_if_running t.executor (signal_of a);
    })
unfolding kill_if_running
sends-Escalates pid t a at esc =
    let one_if : Bool → List (ℤ × Signal) =
      λ b. if b then (t.executor.process_id, signal_of a) ∷ [] else [] in
    elim (Bool-cases (is_running t.executor.status)) [
      | inl r ↦
          let on : esc.count ≡ attempts_before a = esc.on_time r ∙ ap sent_by at in
          record {
            same_pid = esc.same_pid;
            count = suc (attempts_before a);
            so_far =
                ap (λ b. t.sent ++ one_if b) r
                ∙ ap (λ p. t.sent ++ (p, signal_of a) ∷ []) esc.same_pid
                ∙ ap (λ l. l ++ (pid, signal_of a) ∷ [])
                    (esc.so_far ∙ ap (λ n. take n (escalation pid)) on)
                ∙ one_more pid a;
            on_time = λ _. refl;
          }
      | inr r ↦ record {
        same_pid = esc.same_pid;
        count = esc.count;
        so_far = ap (λ b. t.sent ++ one_if b) r ∙ append-nil t.sent ∙ esc.so_far;
        on_time = λ r'. absurd (ground (arith, r, r'));
      }
    ]

moved :
    (pid : ℤ) (t : Threads) (stage : Stage) (queued : ℕ)
    → sent_by stage ≡ sent_by t.stage
    → Escalates pid t
    → Escalates pid (record t { stage = stage; queued = queued })
moved pid t stage queued e esc = record {
  same_pid = esc.same_pid;
  count = esc.count;
  so_far = esc.so_far;
  on_time = λ r. esc.on_time r ∙ sym e;
}

over :
    (pid : ℤ) (t : Threads) (executor : ProgramExecutor) (stage : Stage)
    → executor.process_id ≡ t.executor.process_id
    → is_running executor.status ≡ false
    → Escalates pid t
    → Escalates pid (record t { executor = executor; stage = stage })
over pid t executor stage e h esc = record {
  same_pid = e ∙ esc.same_pid;
  count = esc.count;
  so_far = esc.so_far;
  on_time = λ r. absurd (ground (arith, r, h));
}

Step-Escalates :
    {timed : Attempt → Bool} (pid : ℤ) {t u : Threads}
    → Step timed t u
    → Escalates pid t
    → Escalates pid u
Step-Escalates pid {t} (ends st h) esc = record {
  same_pid = esc.same_pid;
  count = esc.count;
  so_far = esc.so_far;
  on_time = esc.on_time;
}
Step-Escalates pid {t} (reaps st h) esc = record {
  same_pid = esc.same_pid;
  count = esc.count;
  so_far = esc.so_far;
  on_time = esc.on_time;
}
Step-Escalates pid {t} (records st h) esc = record {
  same_pid = same_process t.executor st ∙ esc.same_pid;
  count = esc.count;
  so_far = esc.so_far;
  on_time = λ r. esc.on_time (was_running t.executor st r);
}
Step-Escalates pid {t} (asks r) esc = moved pid t t.stage (suc t.queued) refl esc
Step-Escalates pid {t} (enters n q at) esc = moved pid t (signals first) n (sym (ap sent_by at)) esc
Step-Escalates pid {t} (sends a at) esc = sends-Escalates pid t a at esc
Step-Escalates pid {t} (finds_over a at r) esc = over pid t t.executor idle refl r esc
Step-Escalates pid {t} (starts_waiting a at r) esc =
    moved pid t (waits a) t.queued (sym (ap sent_by at)) esc
Step-Escalates pid {t} (wakes a at r) esc = over pid t t.executor idle refl r esc
Step-Escalates pid {t} (times_out a at late) esc =
    moved pid t (after_timeout a) t.queued (timed a ∙ sym (ap sent_by at)) esc
Step-Escalates pid {t} (stops at) esc = over pid t (give_up t.executor) idle refl refl esc

Reach-Escalates :
    {timed : Attempt → Bool} (pid : ℤ) {t u : Threads}
    → Reach timed t u
    → Escalates pid t
    → Escalates pid u
Reach-Escalates pid here esc = esc
Reach-Escalates pid (next r step) esc = Step-Escalates pid step (Reach-Escalates pid r esc)

-- However many threads call `kill` on a program that has been started, and in whatever order their steps, those of the
-- thread that waits for the process and those of the program come: all the signals that it is sent
-- are together a beginning of SIGINT, SIGINT, SIGKILL, each sent to its process.
pub one_escalation :
    {timed : Attempt → Bool} (e : ProgramExecutor) {t : Threads}
    → Reach timed (initial e) t
    → (n : ℕ) × (t.sent ≡ take n (addressed e.process_id (sigint ∷ sigint ∷ sigkill ∷ [])))
one_escalation e {t} r =
    let esc : Escalates e.process_id t =
      Reach-Escalates e.process_id r
        (record { same_pid = refl; count = 0; so_far = refl; on_time = λ _. refl }) in
    (esc.count, esc.so_far)
