-- ===== src/ProgramExecutor/Sealed.antt =====
-- When `kill` gives a program up, it has closed the pipe (src/ProgramExecutor.cpp).
use mathlib.Core.Option
use ml_gridengine_executor.Base.{
  ℕ, ◌≡◌, refl, subst, ◌∙◌, sym, List, [], ◌++◌, Bool, true, false, Option, none, some, ℤ,
  Bool-cases, inl, inr, arith, if◌then◌else◌, ◌||◌,
}
use ml_gridengine_executor.ProgramExecutor.{
  ProgramExecutor, ProgramStatus, not_started, running, exited, signalled, cannot_kill, is_running,
  is_positive, is_exited, is_signalled, background, wait_in_background, wait_started, Turn, Signal,
  sigint, sigkill, kill_if_running, after_wait, kill_step, kill, to_millis, give_up,
}
use ml_gridengine_executor.ProgramExecutor.Kill.{is_final}

-- The program has ended, or its pipe has been closed.
abbrev pub output_over : ProgramExecutor → Bool
output_over e = is_exited e.status || (is_signalled e.status || e.pipe_closed)

pub exited_over : (e : ProgramExecutor) → e.status ≡ exited → output_over e ≡ true
exited_over e q = rw q refl

pub signalled_over : (e : ProgramExecutor) → e.status ≡ signalled → output_over e ≡ true
signalled_over e q = rw q refl

abbrev Sealed : ProgramExecutor → Type 0
Sealed e = e.status ≡ cannot_kill → e.pipe_closed ≡ true

-- What a wait, and a part of `kill`, leave if they return.
abbrev Left {ℓ} : {A : Type ℓ} → Option (A × ProgramExecutor) → Type 0
Left none = Unit
Left (some (a, e)) = Sealed e

background-Sealed :
    (e : ProgramExecutor) (o : Option (Option ℕ)) → Sealed e → Sealed (background e o).0
unfolding background wait_in_background
background-Sealed e none h = h
background-Sealed e (some none) h = h
background-Sealed e (some (some st)) h = λ q. ground (arith, h)

wait_started-Left :
    (e : ProgramExecutor) (timeout : ℤ) (turn : Turn)
    → Sealed e
    → Left (wait_started e timeout turn)
unfolding wait_started
wait_started-Left e timeout turn h =
    let e₁ : ProgramExecutor = (background e turn.before).0 in
    let e₂ : ProgramExecutor = (background e₁ turn.during).0 in
    let h₁ : Sealed e₁ = background-Sealed e turn.before h in
    let h₂ : Sealed e₂ = background-Sealed e₁ turn.during h₁ in
    elim (Bool-cases (is_running e₁.status)) [
      | inr r ↦ rw r h₁
      | inl r ↦ elim (Bool-cases (background e₁ turn.during).1) [
        | inl w ↦ rw (r, w) h₂
        | inr w ↦ elim (Bool-cases (is_positive timeout)) [
          | inl p ↦ rw (r, w, p) (background-Sealed e₂ turn.late h₂)
          | inr p ↦ rw (r, w, p) tt
        ]
      ]
    ]

map-Left :
    (k : List (ℤ × Signal)) (r : Option (List (ℤ × Signal) × ProgramExecutor))
    → Left r
    → Left (Option.map (λ (more, e). (k ++ more, e)) r)
map-Left k none h = tt
map-Left k (some (more, e)) h = h

module _ (next : ProgramExecutor → Option (List (ℤ × Signal) × ProgramExecutor))
    (later : (e : ProgramExecutor) → Sealed e → Left (next e)) where
  after_wait-Left :
      (k : List (ℤ × Signal)) (o : Option (Bool × ProgramExecutor))
      → Left o
      → Left (after_wait k next o)
  unfolding after_wait
  after_wait-Left k none h = tt
  after_wait-Left k (some (true, e)) h = h
  after_wait-Left k (some (false, e)) h = map-Left k (next e) (later e h)

  kill_step-Left :
      (s : Signal) (seconds : ℤ) (turn : Turn) (e : ProgramExecutor)
      → Sealed e
      → Left (kill_step s seconds turn next e)
  unfolding kill_step
  kill_step-Left s seconds turn e h =
      after_wait-Left (kill_if_running e s) (wait_started e (to_millis seconds) turn)
        (wait_started-Left e (to_millis seconds) turn h)

kill-Left :
    (w₁ w₂ w₃ : ℤ) (t₁ t₂ t₃ : Turn) (e : ProgramExecutor)
    → Sealed e
    → Left (kill w₁ w₂ w₃ t₁ t₂ t₃ e)
unfolding kill
kill-Left w₁ w₂ w₃ t₁ t₂ t₃ e h = elim (Bool-cases (is_running e.status)) [
  | inr r ↦ rw r h
  | inl r ↦
      let last : (e' : ProgramExecutor)
          → Sealed e'
          → Left (kill_step sigkill w₃ t₃ (λ z. some ([], give_up z)) e') =
        kill_step-Left (λ z. some ([], give_up z)) (λ z _ q. refl) sigkill w₃ t₃ in
      let more : (e' : ProgramExecutor)
          → Sealed e'
          → Left (kill_step sigint w₂ t₂ (kill_step sigkill w₃ t₃ (λ z. some ([], give_up z))) e') =
        kill_step-Left _ last sigint w₂ t₂ in
      subst
        (λ b. Left (
          if b
          then kill_step sigint w₁ t₁
              (kill_step sigint w₂ t₂ (kill_step sigkill w₃ t₃ (λ z. some ([], give_up z)))) e
          else some ([], e)))
        (sym r) (kill_step-Left _ more sigint w₁ t₁ e h)
]

-- After a `kill` of a running program that leaves a final status, the output is over: the program has
-- ended, or has been given up, and then its pipe has been closed.
pub kill-output_over :
    (w₁ w₂ w₃ : ℤ) (t₁ t₂ t₃ : Turn) (e e' : ProgramExecutor) (sent : List (ℤ × Signal))
    → e.status ≡ running
    → kill w₁ w₂ w₃ t₁ t₂ t₃ e ≡ some (sent, e')
    → is_final e'.status ≡ true
    → output_over e' ≡ true
kill-output_over w₁ w₂ w₃ t₁ t₂ t₃ e e' sent r eq f =
    let none_given_up : Sealed e =
      λ q. let bad : running ≡ cannot_kill = sym r ∙ q in absurd (cc bad) in
    let sealed : Sealed e' = subst Left eq (kill-Left w₁ w₂ w₃ t₁ t₂ t₃ e none_given_up) in
    over_by e'.status e'.pipe_closed f sealed
  where
    over_by :
        (st : ProgramStatus) (closed : Bool)
        → is_final st ≡ true
        → (st ≡ cannot_kill → closed ≡ true)
        → (is_exited st || (is_signalled st || closed)) ≡ true
    over_by exited closed f h = refl
    over_by signalled closed f h = refl
    over_by cannot_kill closed f h = rw (h refl) refl
    over_by running closed f h = absurd (cc f)
    over_by not_started closed f h = absurd (cc f)
