-- ===== src/App/Windows/Told.antt =====
-- Which handler a termination signal reaches in each part of a run (src/main.cpp).
use mathlib.Core.List.{append_assoc, append-nil}
use ml_gridengine_executor.Base.{
  ℕ, ◌≡◌, refl, ap, sym, ◌∙◌, List, [], ◌∷◌, ◌++◌, Bool, true, false, not, ◌&&◌, ◌||◌, some,
  if◌then◌else◌, ◌>>=◌,
}
use ml_gridengine_executor.Signals.{
  SignalState, initial, Event, constructs, destroys, receives, run, push,
  try_install_global_handler, notify, global_signal_handler_func, wait_returns,
}
use ml_gridengine_executor.Signals.Notify.{
  is_termination, run-step, step-constructs, step-receives, step-pop, or_assoc, or_false,
}
use ml_gridengine_executor.App.Windows.{
  Arrivals, kills, stops_size, interrupts_callback, ends_stay, received, scoped, timeline, stay,
  handled,
}

-- The calls of a handler that is told of the termination signals among these.
abbrev pub told : ℕ → List ℕ → List (ℕ × ℕ)
told handler [] = []
told handler (v ∷ vs) = (if is_termination v then (handler, v) ∷ [] else []) ++ told handler vs

-- Whether there is one among them.
abbrev pub comes : List ℕ → Bool
comes [] = false
comes (v ∷ vs) = is_termination v || comes vs

-- The state once the global handler is installed.
abbrev at : Bool → List ℕ → SignalState
at interrupted stack = record { installed = true; interrupted = interrupted; stack = stack }

heard :
    (b i : Bool) (calls : List (ℕ × ℕ)) (stack : List ℕ)
    → (if◌then◌else◌ {A = List (ℕ × ℕ) × SignalState} b (calls, at true stack) ([], at i stack))
      ≡ ((if b then calls else []), at (i || b) stack)
heard true true calls stack = refl
heard true false calls stack = refl
heard false true calls stack = refl
heard false false calls stack = refl

one_signal :
    (v : ℕ) (i : Bool) (handler : ℕ)
    → global_signal_handler_func v (at i (handler ∷ [])) ≡ (
      (if is_termination v then (handler, v) ∷ [] else []),
      at (i || is_termination v) (handler ∷ []),
    )
unfolding global_signal_handler_func notify
one_signal v i handler = heard (is_termination v) i ((handler, v) ∷ []) (handler ∷ [])

none_or_none : (b : Bool) → (if◌then◌else◌ {A = List (ℕ × ℕ)} b [] []) ≡ []
none_or_none true = refl
none_or_none false = refl

no_signal :
    (v : ℕ) (i : Bool)
    → global_signal_handler_func v (at i []) ≡ ([], at (i || is_termination v) [])
unfolding global_signal_handler_func notify
no_signal v i =
    heard (is_termination v) i [] []
    ∙ ap (λ l. (l, at (i || is_termination v) [])) (none_or_none (is_termination v))

-- Signals in a block with a handler.
run-received :
    (vs : List ℕ) (rest : List Event) (i : Bool) (handler : ℕ) (calls : List (ℕ × ℕ))
    (s : SignalState)
    → run rest (at (i || comes vs) (handler ∷ [])) ≡ some (calls, s)
    → run (received vs rest) (at i (handler ∷ [])) ≡ some (told handler vs ++ calls, s)
run-received [] rest i handler calls s e = ap (λ b. run rest (at b (handler ∷ []))) (or_false i) ∙ e
run-received (v ∷ vs) rest i handler calls s e =
    run-step (receives v) (received vs rest) (at i (handler ∷ []))
      (at (i || is_termination v) (handler ∷ []))
      (step-receives v (at i (handler ∷ [])) refl ∙ ap some (one_signal v i handler))
      (run-received vs rest (i || is_termination v) handler calls s
        (ap (λ b. run rest (at b (handler ∷ []))) (or_assoc i (is_termination v) (comes vs)) ∙ e))
    ∙ ap (λ l. some (l, s))
        (sym (
          append_assoc (if is_termination v then (handler, v) ∷ [] else []) (told handler vs)
            calls))

-- Signals between the blocks reach no handler, but are not forgotten.
run-unheard :
    (vs : List ℕ) (rest : List Event) (i : Bool) (calls : List (ℕ × ℕ)) (s : SignalState)
    → run rest (at (i || comes vs) []) ≡ some (calls, s)
    → run (received vs rest) (at i []) ≡ some (calls, s)
run-unheard [] rest i calls s e = ap (λ b. run rest (at b [])) (or_false i) ∙ e
run-unheard (v ∷ vs) rest i calls s e =
    run-step (receives v) (received vs rest) (at i []) (at (i || is_termination v) [])
      (step-receives v (at i []) refl ∙ ap some (no_signal v i))
      (run-unheard vs rest (i || is_termination v) calls s
        (ap (λ b. run rest (at b [])) (or_assoc i (is_termination v) (comes vs)) ∙ e))

pushes :
    (installed i : Bool) (handler : ℕ)
    → push handler (record { installed = installed; interrupted = i; stack = [] })
      ≡ at i (handler ∷ [])
unfolding push try_install_global_handler
pushes true i handler = refl
pushes false i handler = refl

-- A block, when the global handler is installed or not.
run-scoped :
    (installed : Bool) (handler : ℕ) (vs : List ℕ) (rest : List Event) (i : Bool)
    (calls : List (ℕ × ℕ)) (s : SignalState)
    → run rest (at (i || comes vs) []) ≡ some (calls, s)
    → run (scoped handler vs rest) (record { installed = installed; interrupted = i; stack = [] })
      ≡ some (told handler vs ++ calls, s)
run-scoped installed handler vs rest i calls s e =
    let before : SignalState = record { installed = installed; interrupted = i; stack = [] } in
    run-step (constructs handler) (received vs (destroys ∷ rest)) before (at i (handler ∷ []))
      (step-constructs handler before ∙ ap (λ z. some ([], z)) (pushes installed i handler))
      (run-received vs (destroys ∷ rest) i handler calls s (
        run-step destroys rest (at (i || comes vs) (handler ∷ [])) (at (i || comes vs) [])
          (step-pop (at (i || comes vs) (handler ∷ [])) handler [] refl) e))

-- Whether a termination signal has come when the callback manager is done.
abbrev pub came_before : Bool → Arrivals → Bool
came_before enabled a =
    let so_far : Bool =
      ((comes a.waiting || comes a.collecting) || comes a.sizing) || comes a.reporting in
    if enabled then so_far || comes a.closing else so_far

-- The calls of the handlers until then.
abbrev pub told_before : Bool → Arrivals → List (ℕ × ℕ)
told_before enabled a =
    told kills a.waiting
    ++ (told stops_size a.sizing ++ (if enabled then told interrupts_callback a.closing else []))

run-nothing : (s : SignalState) → run [] s ≡ some ([], s)
unfolding run
run-nothing s = refl

last_block :
    (enabled i : Bool) (vs : List ℕ)
    → run (if enabled then scoped interrupts_callback vs [] else []) (at i [])
      ≡ some (
        (if enabled then told interrupts_callback vs else []),
        at (if enabled then i || comes vs else i) [],
      )
last_block true i vs =
    run-scoped true interrupts_callback vs [] i [] (at (i || comes vs) [])
      (run-nothing (at (i || comes vs) []))
    ∙ ap (λ l. some (l, at (i || comes vs) [])) (append-nil (told interrupts_callback vs))
last_block false i vs = run-nothing (at i [])

run-timeline :
    (enabled : Bool) (a : Arrivals)
    → run (timeline enabled a) initial ≡ some (told_before enabled a, at (came_before enabled a) [])
unfolding timeline
run-timeline enabled a =
    let last = at (came_before enabled a) [] in
    let closing : List Event = if enabled then scoped interrupts_callback a.closing [] else [] in
    let w : Bool = comes a.waiting in
    let c : Bool = w || comes a.collecting in
    let z : Bool = c || comes a.sizing in
    run-scoped false kills a.waiting _ false _ last (
      run-unheard a.collecting _ w _ last (
        run-scoped true stops_size a.sizing _ c _ last (
          run-unheard a.reporting closing z _ last
            (last_block enabled (z || comes a.reporting) a.closing))))

stay-told :
    (no_exit i : Bool) (a : Arrivals)
    → (s : SignalState) × (stay no_exit a (at i [])
        ≡ some ((if no_exit && not i then told ends_stay a.staying else []), s))
      × (s.stack ≡ [])
unfolding stay wait_returns
stay-told true false a = (
  at (comes a.staying) [],
  run-scoped true ends_stay a.staying [] false [] (at (comes a.staying) [])
        (run-nothing (at (comes a.staying) []))
      ∙ ap (λ l. some (l, at (comes a.staying) [])) (append-nil (told ends_stay a.staying)),
  refl,
)
stay-told true true a = (at true [], refl, refl)
stay-told false i a = (at i [], refl, refl)

-- Whatever signals come in the parts of a run, from the wait for the program on, each SIGINT and SIGTERM
-- is told to the one handler of the part in which it comes, and to no other: while the executor waits for
-- the program, while the size of the working directory is computed, and while the callback manager, if
-- it is enabled, is waited for. With --no-exit the run waits for another signal exactly if none has come
-- in any part before, also between them. The stack of handlers is empty in the end.
pub handled-told :
    (no_exit enabled : Bool) (a : Arrivals)
    → (s : SignalState) × (handled no_exit enabled a
        ≡ some (
          told_before enabled a
              ++ (if no_exit && not (came_before enabled a) then told ends_stay a.staying else []),
          s,
        ))
      × (s.stack ≡ [])
unfolding handled
handled-told no_exit enabled a =
    let (s, e, empty) = stay-told no_exit (came_before enabled a) a in
    (s, rw (run-timeline enabled a, ◌>>=◌, e) refl, empty)
