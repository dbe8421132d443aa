-- ===== src/ProgramExecutor/Kill.antt =====
-- `kill` (src/ProgramExecutor.cpp): it ends, escalates its signals, and leaves a final status.
use mathlib.Core.Option
use ml_gridengine_executor.Base.{
  ℕ, suc, ◌≤◌, ◌≡◌, ◌⊎◌, inl, inr, refl, ap, ◌∙◌, List, [], ◌∷◌, ◌++◌, Bool, true, false, Option,
  none, some, arith, ℤ, pos, negsuc, take, Bool-cases, if◌then◌else◌,
}
use ml_gridengine_executor.ProgramExecutor.{
  ProgramExecutor, ProgramStatus, running, exited, signalled, cannot_kill, is_running, is_positive,
  background, wait_started, Turn, Signal, sigint, sigkill, kill_if_running, after_wait, kill_step,
  kill, to_millis, give_up,
}

-- The final statuses.
abbrev pub is_final : ProgramStatus → Bool
is_final exited = true
is_final signalled = true
is_final cannot_kill = true
is_final _ = false

-- A program of which nothing is known but that it is running or over.
abbrev Live : ProgramExecutor → ProgramExecutor → Type 0
Live e e' =
    (e'.process_id ≡ e.process_id)
    × ((e'.status ≡ running) ⊎ (is_final e'.status ≡ true))
    × (is_final e.status ≡ true → is_final e'.status ≡ true)

background-Live :
    (e : ProgramExecutor) (o : Option (Option ℕ))
    → ((e.status ≡ running) ⊎ (is_final e.status ≡ true))
    → Live e (background e o).0
      × ((background e o).1 ≡ true → is_final (background e o).0.status ≡ true)
unfolding background
background-Live e none h = ground arith
background-Live e (some none) h = ground arith
background-Live e (some (some st)) h = ground arith

-- A wait with a timeout, as a pair.
waited : ProgramExecutor → Turn → Bool × ProgramExecutor
waited e turn =
    let e' : ProgramExecutor = (background e turn.before).0 in
    let e'' : ProgramExecutor = (background e' turn.during).0 in
    if is_running e'.status
    then if (background e' turn.during).1
      then (true, e'')
      else (false, (background e'' turn.late).0)
    else (true, e')

wait_started-waited :
    (e : ProgramExecutor) (timeout : ℤ) (turn : Turn)
    → is_positive timeout ≡ true
    → wait_started e timeout turn ≡ some (waited e turn)
unfolding wait_started waited
wait_started-waited e timeout turn p = ground arith

to_millis_positive :
    (seconds : ℤ) → is_positive seconds ≡ true → is_positive (to_millis seconds) ≡ true
unfolding to_millis
to_millis_positive (pos n) h = ground arith
to_millis_positive (negsuc n) h = cc

abbrev Known : ProgramExecutor → Type 0
Known e = (e.status ≡ running) ⊎ (is_final e.status ≡ true)

waited-Live :
    (e : ProgramExecutor) (turn : Turn)
    → Known e
    → Live e (waited e turn).1
      × ((waited e turn).0 ≡ true → is_final (waited e turn).1.status ≡ true)
      × ((waited e turn).0 ≡ false → e.status ≡ running)
unfolding waited
waited-Live e turn h =
    let e' : ProgramExecutor = (background e turn.before).0 in
    let l : Live e e' = (background-Live e turn.before h).0 in
    let e'' : ProgramExecutor = (background e' turn.during).0 in
    let d = background-Live e' turn.during l.1 in
    let t = background-Live e'' turn.late d.0.1 in
    ground (arith, background-Live e turn.before h, d, t)

abbrev pub addressed : ℤ → List Signal → List (ℤ × Signal)
addressed pid [] = []
addressed pid (s ∷ ss) = (pid, s) ∷ addressed pid ss

-- A part of `kill` that has the signals `signals` left: it ends with a final status, has sent the
-- first few of them to the program's process, and at least one if the program was running.
abbrev Ends :
    List Signal
    → (ProgramExecutor → Option (List (ℤ × Signal) × ProgramExecutor))
    → ProgramExecutor
    → Type 0
Ends signals f e =
    (n : ℕ) × (e' : ProgramExecutor) × (f e ≡ some (take n (addressed e.process_id signals), e'))
    × (is_final e'.status ≡ true)
    × (e.status ≡ running → (signals ≡ []) ⊎ (1 ≤ n))

abbrev Escalates :
    List Signal → (ProgramExecutor → Option (List (ℤ × Signal) × ProgramExecutor)) → Type 0
Escalates signals f = (e : ProgramExecutor) → Known e → Ends signals f e

give_up-Escalates : Escalates [] (λ e. some ([], give_up e))
give_up-Escalates e h = (0, give_up e, refl, refl, λ _. inl refl)

kill_if_running-sent :
    (e : ProgramExecutor) (s : Signal)
    → ((e.status ≡ running) × (kill_if_running e s ≡ (e.process_id, s) ∷ []))
      ⊎ ((is_running e.status ≡ false) × (kill_if_running e s ≡ []))
unfolding kill_if_running
kill_if_running-sent e s = ground arith

module _ (s : Signal) (signals : List Signal) (seconds : ℤ) (turn : Turn)
    (next : ProgramExecutor → Option (List (ℤ × Signal) × ProgramExecutor))
    (p : is_positive seconds ≡ true) where
  stepped :
      (e : ProgramExecutor)
      → kill_step s seconds turn next e
        ≡ after_wait (kill_if_running e s) next (some (waited e turn))
  unfolding kill_step
  stepped e =
      ap (after_wait (kill_if_running e s) next)
        (wait_started-waited e (to_millis seconds) turn (to_millis_positive seconds p))

  finished :
      (e e' : ProgramExecutor)
      → Live e e'
      → waited e turn ≡ (true, e')
      → is_final e'.status ≡ true
      → Ends (s ∷ signals) (kill_step s seconds turn next) e
  unfolding after_wait
  finished e e' l q f = elim (kill_if_running-sent e s) [
    | inl (r, k) ↦ (
      1,
      e',
      stepped e
          ∙ ap (λ w. after_wait (kill_if_running e s) next (some w)) q
          ∙ ap (λ k'. some (k', e')) k,
      f,
      λ _. inr (omega arith),
    )
    | inr (r, k) ↦ (
      0,
      e',
      stepped e
          ∙ ap (λ w. after_wait (kill_if_running e s) next (some w)) q
          ∙ ap (λ k'. some (k', e')) k,
      f,
      λ r'. ground (arith, r, r'),
    )
  ]

  goes_on :
      (e e' : ProgramExecutor)
      → Live e e'
      → e.status ≡ running
      → waited e turn ≡ (false, e')
      → Ends signals next e'
      → Ends (s ∷ signals) (kill_step s seconds turn next) e
  unfolding after_wait
  goes_on e e' l r q (n, e'', eq, f, _) = elim (kill_if_running-sent e s) [
    | inl (_, k) ↦ (
      suc n,
      e'',
      stepped e
          ∙ ap (λ w. after_wait (kill_if_running e s) next (some w)) q
          ∙ ap (Option.map (λ (more, z). (kill_if_running e s ++ more, z))) eq
          ∙ ap (λ k'. some (k' ++ take n (addressed e'.process_id signals), e'')) k
          ∙ ap (λ pid. some ((e.process_id, s) ∷ take n (addressed pid signals), e'')) l.0,
      f,
      λ _. inr (omega arith),
    )
    | inr (r', k) ↦ absurd (ground (arith, r, r'))
  ]

  step-Escalates : Escalates signals next → Escalates (s ∷ signals) (kill_step s seconds turn next)
  step-Escalates go e h =
      let e' : ProgramExecutor = (waited e turn).1 in
      let w = waited-Live e turn h in
      elim (Bool-cases (waited e turn).0) [
        | inl t ↦ finished e e' w.0 (ap (λ b. (b, e')) t) (w.1 t)
        | inr f ↦ goes_on e e' w.0 (w.2 f) (ap (λ b. (b, e')) f) (go e' w.0.1)
      ]

-- With positive waits, `kill` on a running program returns with a final status, having sent a
-- non-empty beginning of SIGINT, SIGINT, SIGKILL, and each signal to the process of the program.
pub kill-Ends :
    (first second final : ℤ) (t₁ t₂ t₃ : Turn) (e : ProgramExecutor)
    → is_positive first ≡ true
    → is_positive second ≡ true
    → is_positive final ≡ true
    → e.status ≡ running
    → (n : ℕ) × (e' : ProgramExecutor) × (kill first second final t₁ t₂ t₃ e
        ≡ some (take n (addressed e.process_id (sigint ∷ sigint ∷ sigkill ∷ [])), e'))
      × (is_final e'.status ≡ true)
      × (1 ≤ n)
unfolding kill
kill-Ends first second final t₁ t₂ t₃ e p q r h =
    let s₃ = step-Escalates sigkill [] final t₃ _ r give_up-Escalates in
    let s₂ = step-Escalates sigint (sigkill ∷ []) second t₂ _ q s₃ in
    let s₁ = step-Escalates sigint (sigint ∷ sigkill ∷ []) first t₁ _ p s₂ in
    let (n, e', eq, f, one) = s₁ e (inl h) in
    (
      n,
      e',
      ap
            (λ st.
              if is_running st
              then kill_step sigint first t₁
                  (kill_step sigint second t₂
                    (kill_step sigkill final t₃ (λ z. some ([], give_up z))))
                  e
              else some ([], e))
            h
          ∙ eq,
      f,
      ground (arith, one h),
    )
