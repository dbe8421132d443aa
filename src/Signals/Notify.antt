-- ===== src/Signals/Notify.antt =====
-- The signal handlers of a scope (src/SignalHandler.cpp): the stack is what it was when the scope ends,
-- and a termination signal is never forgotten.
use ml_gridengine_executor.Base.{
  ℕ, zero, suc, ◌≡◌, refl, ap, ◌∙◌, List, [], ◌∷◌, ◌++◌, Bool, true, false, not, ◌||◌, ◌&&◌, Option,
  none, some, arith, ◌==◌, ◌>>=◌,
}
use ml_gridengine_executor.Signals.{
  SignalState, try_install_global_handler, push, pop_stack, Event, constructs, destroys, receives,
  notify, global_signal_handler_func, step, run,
}

abbrev pub is_termination : ℕ → Bool
is_termination signal_value = (signal_value == 2) || (signal_value == 15)

-- Whether a termination signal is among the events.
abbrev pub terminates : List Event → Bool
terminates [] = false
terminates (receives v ∷ events) = is_termination v || terminates events
terminates (_ ∷ events) = terminates events

-- The events of nested scopes, after `inner` handlers have been constructed.
abbrev pub is_nested : ℕ → List Event → Bool
is_nested inner [] = inner == 0
is_nested inner (constructs handler ∷ events) = is_nested (suc inner) events
is_nested zero (destroys ∷ events) = false
is_nested (suc inner) (destroys ∷ events) = is_nested inner events
is_nested inner (receives v ∷ events) = is_nested inner events

-- No termination signal comes before the global handler is installed, which the first construction does.
abbrev pub is_handled : Bool → List Event → Bool
is_handled installed [] = true
is_handled installed (constructs handler ∷ events) = is_handled true events
is_handled installed (destroys ∷ events) = is_handled installed events
is_handled installed (receives v ∷ events) =
    (installed || not (is_termination v)) && is_handled installed events

-- What is left of the stack when the `inner` handlers on top have been popped.
abbrev below : ℕ → List ℕ → Option (List ℕ)
below zero stack = some stack
below (suc n) [] = none
below (suc n) (handler ∷ stack) = below n stack

-- What a run leaves: `stack`, and a flag that is set if it was or a termination signal has come.
abbrev pub Leaves : List Event → SignalState → List ℕ → Type 0
Leaves events s stack =
    (called : List (ℕ × ℕ)) × (s' : SignalState) × (run events s ≡ some (called, s'))
    × (s'.stack ≡ stack)
    × (s'.interrupted ≡ (s.interrupted || terminates events))

pub run-step :
    (e : Event) (events : List Event) (s s₁ : SignalState) {s₂ : SignalState}
    {called more : List (ℕ × ℕ)}
    → step e s ≡ some (called, s₁)
    → run events s₁ ≡ some (more, s₂)
    → run (e ∷ events) s ≡ some (called ++ more, s₂)
unfolding run
run-step e events s s₁ eq eq' = rw (eq, ◌>>=◌, eq') refl

pub step-pop :
    (s : SignalState) (handler : ℕ) (stack : List ℕ)
    → s.stack ≡ handler ∷ stack
    → step destroys s ≡ some ([], record s { stack = stack })
unfolding step
step-pop s handler stack e =
    ap
      (λ l. elim (pop_stack l) as (λ _. Option (List (ℕ × ℕ) × SignalState)) [
        | none ↦ none
        | some rest ↦ some ([], record s { stack = rest })
      ])
      e

-- One signal.
received :
    (v : ℕ) (s : SignalState)
    → ((global_signal_handler_func v s).1.stack ≡ s.stack)
      × ((global_signal_handler_func v s).1.interrupted ≡ (s.interrupted || is_termination v))
      × ((global_signal_handler_func v s).1.installed ≡ s.installed)
unfolding global_signal_handler_func notify
received v s = ground arith

pub or_assoc : (a b c : Bool) → ((a || b) || c) ≡ (a || (b || c))
or_assoc true b c = refl
or_assoc false b c = refl

pushed :
    (handler : ℕ) (s : SignalState)
    → ((push handler s).stack ≡ handler ∷ s.stack)
      × ((push handler s).interrupted ≡ s.interrupted)
      × ((push handler s).installed ≡ true)
unfolding push try_install_global_handler
pushed handler s = ground arith

below-uncons :
    (n : ℕ) (handlers stack : List ℕ)
    → below (suc n) handlers ≡ some stack
    → (handler : ℕ) × (rest : List ℕ) × (handlers ≡ handler ∷ rest) × (below n rest ≡ some stack)
below-uncons n [] stack e = cc e
below-uncons n (handler ∷ rest) stack e = (handler, rest, refl, e)

pub or_false : (a : Bool) → a ≡ (a || false)
or_false true = refl
or_false false = refl

pub step-constructs :
    (handler : ℕ) (s : SignalState) → step (constructs handler) s ≡ some ([], push handler s)
unfolding step
step-constructs handler s = refl

pub step-receives :
    (v : ℕ) (s : SignalState)
    → (s.installed || not (is_termination v)) ≡ true
    → step (receives v) s ≡ some (global_signal_handler_func v s)
unfolding step
step-receives v s h =
    let on : (not s.installed && is_termination v) ≡ false = ground (arith, h) in rw on refl

and_both : (a b : Bool) → (a && b) ≡ true → (a ≡ true) × (b ≡ true)
and_both a b h = ground (arith, h)

-- After `inner` handlers of the scope have been constructed.
run-below :
    (events : List Event) (inner : ℕ) (s : SignalState) (stack : List ℕ)
    → is_nested inner events ≡ true
    → below inner s.stack ≡ some stack
    → is_handled s.installed events ≡ true
    → Leaves events s stack
run-below [] zero s stack n b o =
    ([], s, unfold run in refl, ground (arith, b), or_false s.interrupted)
run-below [] (suc inner) s stack n b o = absurd (ground (arith, n))
run-below (constructs handler ∷ events) inner s stack n b o =
    let (p, f, i) = pushed handler s in
    let (called, s', eq, same, flag) =
      run-below events (suc inner) (push handler s) stack n (ap (below (suc inner)) p ∙ b)
        (ap (λ on. is_handled on events) i ∙ o) in
    (
      called,
      s',
      run-step (constructs handler) events s (push handler s) (step-constructs handler s) eq,
      same,
      flag ∙ ap (λ a. a || terminates events) f,
    )
run-below (destroys ∷ events) zero s stack n b o = cc n
run-below (destroys ∷ events) (suc inner) s stack n b o =
    let (handler, rest, l, b') = below-uncons inner s.stack stack b in
    let s₁ : SignalState = record s { stack = rest } in
    let (called, s', eq, same, flag) = run-below events inner s₁ stack n b' o in
    (called, s', run-step destroys events s s₁ (step-pop s handler rest l) eq, same, flag)
run-below (receives v ∷ events) inner s stack n b o =
    let (r, f, i) = received v s in
    let (on, later) =
      and_both (s.installed || not (is_termination v)) (is_handled s.installed events) o in
    let s₁ : SignalState = (global_signal_handler_func v s).1 in
    let (called, s', eq, same, flag) =
      run-below events inner s₁ stack n (ap (below inner) r ∙ b)
        (ap (λ on. is_handled on events) i ∙ later) in
    (
      (global_signal_handler_func v s).0 ++ called,
      s',
      run-step (receives v) events s s₁ (step-receives v s on) eq,
      same,
      flag
          ∙ ap (λ a. a || terminates events) f
          ∙ or_assoc s.interrupted (is_termination v) (terminates events),
    )

-- In the events of a scope in which every handler that is constructed is destroyed again, innermost
-- first, and no SIGINT or SIGTERM comes before the global handler is installed, no pop finds the stack
-- empty and no signal ends the process. The stack is then what it was, and `interrupted` holds if it
-- did before or SIGINT or SIGTERM has come.
pub run-Leaves :
    (events : List Event) (s : SignalState)
    → is_nested zero events ≡ true
    → is_handled s.installed events ≡ true
    → Leaves events s s.stack
run-Leaves events s n o = run-below events zero s s.stack n refl o
