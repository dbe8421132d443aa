-- ===== src/App/Windows.antt =====
-- The signal handlers that `runApp` (src/main.cpp) installs during a run: each is there for one part of the
-- run, and none in between.
pub mod Told
use ml_gridengine_executor.Base.{
  ℕ, List, [], ◌∷◌, ◌++◌, Bool, not, ◌&&◌, Option, some, if◌then◌else◌, ◌>>=◌,
}
use ml_gridengine_executor.Signals.{
  SignalState, initial, Event, constructs, destroys, receives, run, wait_returns,
}

-- The four handlers: one kills the program, one stops the computing of the size, one interrupts the
-- callback manager, and one is there for the wait of --no-exit.
abbrev pub kills : ℕ
kills = 0

abbrev pub stops_size : ℕ
stops_size = 1

abbrev pub interrupts_callback : ℕ
interrupts_callback = 2

abbrev pub ends_stay : ℕ
ends_stay = 3

-- The signals that come in each part of a run, from the wait for the program on.
pub record Arrivals : Type 0 where
  pub waiting : List ℕ
  pub collecting : List ℕ
  pub sizing : List ℕ
  pub reporting : List ℕ
  pub closing : List ℕ
  pub staying : List ℕ

abbrev pub received : List ℕ → List Event → List Event
received [] rest = rest
received (v ∷ vs) rest = receives v ∷ received vs rest

-- A block with a SignalHandler.
abbrev pub scoped : ℕ → List ℕ → List Event → List Event
scoped handler signals rest = constructs handler ∷ received signals (destroys ∷ rest)

-- The blocks of runApp in their order, `enabled` being that of the callback manager.
unfoldable pub timeline : Bool → Arrivals → List Event
timeline enabled a = scoped kills a.waiting (
    received a.collecting (
      scoped stops_size a.sizing
        (received a.reporting (if enabled then scoped interrupts_callback a.closing [] else []))))

-- "If no exit, wait for termination"
unfoldable pub stay : Bool → Arrivals → SignalState → Option (List (ℕ × ℕ) × SignalState)
stay no_exit a s =
    if no_exit && not (wait_returns s) then run (scoped ends_stay a.staying []) s else some ([], s)

-- The calls of handlers in a run.
unfoldable pub handled : Bool → Bool → Arrivals → Option (List (ℕ × ℕ) × SignalState)
unfolding timeline stay
handled no_exit enabled a = run (timeline enabled a) initial >>= λ (called, s).
    stay no_exit a s >>= λ (more, s'). some (called ++ more, s')
