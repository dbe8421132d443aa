-- ===== src/ProgramExecutor/Threads/Calls.antt =====
-- `kill` as one thread sees it (src/ProgramExecutor.cpp) is a path of the steps of all the threads.
use mathlib.Core.Option
use mathlib.Core.List.{append-nil, append_assoc}
use ml_gridengine_executor.Base.{
  ℕ, ◌≡◌, refl, ap, sym, subst, ◌∙◌, List, [], ◌∷◌, ◌++◌, Bool, true, false, Option, none, some,
  arith, if◌then◌else◌, Bool-cases, inl, inr, ℤ,
}
use ml_gridengine_executor.ProgramExecutor.{
  ProgramExecutor, Turn, Signal, sigint, sigkill, running, is_running, is_positive,
  wait_in_background, background, wait_started, kill_if_running, give_up, to_millis, after_wait,
  kill_step, kill,
}
use ml_gridengine_executor.ProgramExecutor.Threads.{
  Process, alive, recorded, Attempt, first, second, third, signal_of, idle, signals, calls_wait,
  waits, gives_up, after_timeout, Threads, initial, ends, reaps, records, asks, enters, sends,
  finds_over, starts_waiting, wakes, times_out, stops, Reach, here, next,
}
use ml_gridengine_executor.ProgramExecutor.Threads.Ending.{then_Reach, and_then}

-- The process when waitpid has given `o`.
abbrev arrived : Option (Option ℕ) → Process → Process
arrived none p = p
arrived (some none) p = p
arrived (some (some st)) p = recorded st

-- waitpid gives a status only once, while the process is alive before.
abbrev pub Arrives : Process → List (Option (Option ℕ)) → Type 0
Arrives p [] = Unit
Arrives p (o ∷ os) = ((st : ℕ) → o ≡ some (some st) → p ≡ alive) × Arrives (arrived o p) os

abbrev after_arrival : Threads → Option (Option ℕ) → Threads
after_arrival t o = record t {
  executor = (background t.executor o).0;
  process = arrived o t.process;
}

arrives-Reach :
    {timed : Attempt → Bool} (t : Threads) (o : Option (Option ℕ))
    → ((st : ℕ) → o ≡ some (some st) → t.process ≡ alive)
    → Reach timed t (after_arrival t o)
unfolding background wait_in_background
arrives-Reach t none h = here
arrives-Reach t (some none) h = here
arrives-Reach t (some (some st)) h =
    next (next (next here (ends st (h st refl))) (reaps st refl)) (records st refl)

-- A way to the end of a call of `kill`, which sends `sent` and leaves `e`.
abbrev pub Way : (Attempt → Bool) → Threads → List (ℤ × Signal) → ProgramExecutor → Type 0
Way timed t sent e =
    (u : Threads) × Reach timed t u
    × (u.executor ≡ e)
    × (u.sent ≡ t.sent ++ sent)
    × (u.stage ≡ idle)

-- What a call of `kill` comes to, if it returns, is reached.
abbrev pub Follows :
    (Attempt → Bool) → Threads → Option (List (ℤ × Signal) × ProgramExecutor) → Type 0
Follows timed t none = Unit
Follows timed t (some (sent, e)) = Way timed t sent e

map-Follows :
    {timed : Attempt → Bool} (t u : Threads) (k : List (ℤ × Signal))
    (r : Option (List (ℤ × Signal) × ProgramExecutor))
    → Reach timed t u
    → u.sent ≡ t.sent ++ k
    → Follows timed u r
    → Follows timed t (Option.map (λ (more, e). (k ++ more, e)) r)
map-Follows t u k none path q f = tt
map-Follows t u k (some (more, e)) path q (v, later, x, s, at) =
    (v, and_then path later, x, s ∙ ap (λ l. l ++ more) q ∙ append_assoc t.sent k more, at)

gives_up-Follows :
    {timed : Attempt → Bool} (t : Threads)
    → t.stage ≡ gives_up
    → Follows timed t (some ([], give_up t.executor))
gives_up-Follows t at = (
  record t { executor = give_up t.executor; stage = idle },
  next here (stops at),
  refl,
  sym (append-nil t.sent),
  refl,
)

module _ (e : ProgramExecutor) (timeout : ℤ) (turn : Turn) where
  abbrev e₁ : ProgramExecutor
  e₁ = (background e turn.before).0

  abbrev e₂ : ProgramExecutor
  e₂ = (background e₁ turn.during).0

  wait_over : is_running e₁.status ≡ false → wait_started e timeout turn ≡ some (true, e₁)
  unfolding wait_started
  wait_over r = ground arith

  wait_woken :
      is_running e₁.status ≡ true
      → (background e₁ turn.during).1 ≡ true
      → wait_started e timeout turn ≡ some (true, e₂)
  unfolding wait_started
  wait_woken r w = ground arith

  wait_late :
      is_running e₁.status ≡ true
      → (background e₁ turn.during).1 ≡ false
      → is_positive timeout ≡ true
      → wait_started e timeout turn ≡ some (false, (background e₂ turn.late).0)
  unfolding wait_started
  wait_late r w p = ground arith

  wait_forever :
      is_running e₁.status ≡ true
      → (background e₁ turn.during).1 ≡ false
      → is_positive timeout ≡ false
      → wait_started e timeout turn ≡ none
  unfolding wait_started
  wait_forever r w p = ground arith

woken_over :
    (e : ProgramExecutor) (o : Option (Option ℕ))
    → (background e o).1 ≡ true
    → is_running (background e o).0.status ≡ false
unfolding background wait_in_background
woken_over e none h = absurd (cc h)
woken_over e (some none) h = absurd (cc h)
woken_over e (some (some st)) h = ground arith

module _ (timed : Attempt → Bool) (a : Attempt) (seconds : ℤ)
    (timed_so : timed a ≡ is_positive (to_millis seconds)) (turn : Turn)
    (rest : List (Option (Option ℕ)))
    (next_part : ProgramExecutor → Option (List (ℤ × Signal) × ProgramExecutor))
    (later : (t : Threads)
      → t.stage ≡ after_timeout a
      → Arrives t.process rest
      → Follows timed t (next_part t.executor)) where
  module _ (t : Threads) (at : t.stage ≡ signals a)
      (arrive : Arrives t.process (turn.before ∷ turn.during ∷ turn.late ∷ rest)) where
    abbrev k : List (ℤ × Signal)
    k = kill_if_running t.executor (signal_of a)

    abbrev sent_one : Threads
    sent_one = record t { stage = calls_wait a; sent = t.sent ++ k }

    abbrev called : Threads
    called = after_arrival sent_one turn.before

    to_called : Reach timed t called
    to_called = and_then (next here (sends a at)) (arrives-Reach sent_one turn.before arrive.0)

    abbrev waiting : Threads
    waiting = after_arrival (record called { stage = waits a }) turn.during

    to_waiting : is_running called.executor.status ≡ true → Reach timed t waiting
    to_waiting r =
        and_then (next to_called (starts_waiting a refl r))
          (arrives-Reach (record called { stage = waits a }) turn.during arrive.1.0)

    abbrev overdue : Threads
    overdue = after_arrival waiting turn.late

    to_overdue : is_running called.executor.status ≡ true → Reach timed t overdue
    to_overdue r = and_then (to_waiting r) (arrives-Reach waiting turn.late arrive.1.1.0)

    abbrev ms : ℤ
    ms = to_millis seconds

    waited-Follows : Follows timed t (after_wait k next_part (wait_started t.executor ms turn))
    unfolding after_wait
    waited-Follows = elim (Bool-cases (is_running called.executor.status)) [
      | inr r ↦
          subst (λ w. Follows timed t (after_wait k next_part w))
            (sym (wait_over t.executor ms turn r))
            (record called { stage = idle }, next to_called (finds_over a refl r), refl, refl, refl)
      | inl r ↦ elim (Bool-cases (background called.executor turn.during).1) [
        | inl w ↦
            subst (λ w. Follows timed t (after_wait k next_part w))
              (sym (wait_woken t.executor ms turn r w))
              (
                record waiting { stage = idle },
                next (to_waiting r) (wakes a refl (woken_over called.executor turn.during w)),
                refl,
                refl,
                refl,
              )
        | inr w ↦ elim (Bool-cases (is_positive ms)) [
          | inl p ↦
              subst (λ w. Follows timed t (after_wait k next_part w))
                (sym (wait_late t.executor ms turn r w p))
                (map-Follows t (record overdue { stage = after_timeout a }) k
                  (next_part overdue.executor)
                  (next (to_overdue r) (times_out a refl (timed_so ∙ p))) refl
                  (later (record overdue { stage = after_timeout a }) refl arrive.1.1.1))
          | inr p ↦
              subst (λ w. Follows timed t (after_wait k next_part w))
                (sym (wait_forever t.executor ms turn r w p)) tt
        ]
      ]
    ]

  step-Follows :
      (t : Threads)
      → t.stage ≡ signals a
      → Arrives t.process (turn.before ∷ turn.during ∷ turn.late ∷ rest)
      → Follows timed t (kill_step (signal_of a) seconds turn next_part t.executor)
  unfolding kill_step
  step-Follows t at arrive = waited-Follows t at arrive

-- The waits of `kill` that may time out.
abbrev pub timed_by : ℤ → ℤ → ℤ → Attempt → Bool
timed_by w₁ w₂ w₃ first = is_positive (to_millis w₁)
timed_by w₁ w₂ w₃ second = is_positive (to_millis w₂)
timed_by w₁ w₂ w₃ third = is_positive (to_millis w₃)

-- The calls of `kill` as functions refine the steps of the threads: if a call of `kill` on a running
-- program, as one thread sees it, returns, with waitpid giving at most one status during its waits, then
-- some path of the steps of all threads leads from the program alone to a state with this executor, in
-- which the same signals have been sent and no call is under way.
pub kill-Reach :
    (first_wait second_wait final_wait : ℤ) (t₁ t₂ t₃ : Turn) (e : ProgramExecutor)
    {sent : List (ℤ × Signal)} {e' : ProgramExecutor}
    → e.status ≡ running
    → Arrives alive (
        t₁.before ∷ t₁.during ∷ t₁.late ∷ t₂.before ∷ t₂.during ∷ t₂.late ∷ t₃.before ∷ t₃.during
        ∷ t₃.late ∷ [])
    → kill first_wait second_wait final_wait t₁ t₂ t₃ e ≡ some (sent, e')
    → (u : Threads) × Reach (timed_by first_wait second_wait final_wait) (initial e) u
      × (u.executor ≡ e')
      × (u.sent ≡ sent)
      × (u.stage ≡ idle)
unfolding kill
kill-Reach w₁ w₂ w₃ t₁ t₂ t₃ e {sent} {e'} h arrive eq =
    let timed : Attempt → Bool = timed_by w₁ w₂ w₃ in
    let running_now : is_running e.status ≡ true = ap is_running h in
    let asked : Threads = record (initial e) { queued = 1 } in
    let entered : Threads = record asked { stage = signals first; queued = 0 } in
    let last =
      step-Follows timed third w₃ refl t₃ [] (λ e. some ([], give_up e))
        (λ t at _. gives_up-Follows t at) in
    let more = step-Follows timed second w₂ refl t₂ (t₃.before ∷ t₃.during ∷ t₃.late ∷ []) _ last in
    let all =
      step-Follows timed first w₁ refl t₁
        (t₂.before ∷ t₂.during ∷ t₂.late ∷ t₃.before ∷ t₃.during ∷ t₃.late ∷ []) _ more entered refl
        arrive in
    let eq' : kill_step sigint w₁ t₁
          (kill_step sigint w₂ t₂ (kill_step sigkill w₃ t₃ (λ z. some ([], give_up z)))) e
        ≡ some (sent, e') =
      sym (
        ap
          (λ b.
            if b
            then kill_step sigint w₁ t₁
                (kill_step sigint w₂ t₂ (kill_step sigkill w₃ t₃ (λ z. some ([], give_up z)))) e
            else some ([], e))
          running_now)
      ∙ eq in
    let (u, r, x, s, at) = subst (Follows timed entered) eq' all in
    (u, then_Reach (asks running_now) (then_Reach (enters 0 refl refl) r), x, s, at)
