-- ===== src/Signals.antt =====
-- `SignalHandler` and its `GlobalSignalHandler` (src/SignalHandler.h, src/SignalHandler.cpp): the stack
-- of handlers that a termination signal notifies. A handler is known by a number.
pub mod Notify
use ml_gridengine_executor.Base.{
  ℕ, List, [], ◌∷◌, ◌++◌, Bool, true, false, not, ◌||◌, ◌&&◌, Option, none, some, ◌==◌,
  if◌then◌else◌, ◌>>=◌,
}

-- `stack` is `_stack` from its back to its front: the handler pushed last stands first.
pub record SignalState : Type 0 where
  pub installed : Bool
  pub interrupted : Bool
  pub stack : List ℕ

abbrev pub initial : SignalState
initial = record { installed = false; interrupted = false; stack = [] }

-- `tryInstallGlobalHandler()`
unfoldable pub try_install_global_handler : SignalState → SignalState
try_install_global_handler s = if not s.installed then record s { installed = true } else s

-- `push(handler)`, the constructor of a SignalHandler
unfoldable pub push : ℕ → SignalState → SignalState
unfolding try_install_global_handler
push handler s =
    let s' : SignalState = try_install_global_handler s in record s' { stack = handler ∷ s'.stack }

-- `pop()`, the destructor of a SignalHandler; to pop an empty vector is a fault.
abbrev pub pop_stack : List ℕ → Option (List ℕ)
pop_stack [] = none
pop_stack (handler ∷ stack) = some stack

-- What happens in the life of the process.
pub data Event : Type 0 where
  constructs : ℕ → Event
  destroys : Event
  receives : ℕ → Event

-- The loop of `notify`.
abbrev pub calls : ℕ → List ℕ → List (ℕ × ℕ)
calls signal_value [] = []
calls signal_value (handler ∷ handlers) = (handler, signal_value) ∷ calls signal_value handlers

-- `notify(signalValue)`: the calls of callbacks, in order.
unfoldable pub notify : ℕ → SignalState → List (ℕ × ℕ) × SignalState
notify signal_value s = (calls signal_value s.stack, record s { interrupted = true })

-- `globalSignalHandlerFunc(signalValue)`: SIGINT is 2 and SIGTERM is 15.
unfoldable pub global_signal_handler_func : ℕ → SignalState → List (ℕ × ℕ) × SignalState
global_signal_handler_func signal_value s =
    if (signal_value == 2) || (signal_value == 15) then notify signal_value s else ([], s)

-- `wait()` returns at once if there has been a signal; else it waits for the next one.
unfoldable pub wait_returns : SignalState → Bool
wait_returns s = s.interrupted

-- One event, SIGINT and SIGTERM being the signals: the calls of callbacks that it makes, and the state
-- after it. `none` is the end of the process: nothing is there to pop, or a signal comes before the
-- global handler is installed, and its default action ends the process.
unfoldable pub step : Event → SignalState → Option (List (ℕ × ℕ) × SignalState)
unfolding push global_signal_handler_func notify
step (constructs handler) s = some ([], push handler s)
step destroys s = elim (pop_stack s.stack) [
  | none ↦ none
  | some stack ↦ some ([], record s { stack = stack })
]
step (receives signal_value) s =
    if not s.installed && ((signal_value == 2) || (signal_value == 15))
    then none
    else some (global_signal_handler_func signal_value s)

unfoldable pub run : List Event → SignalState → Option (List (ℕ × ℕ) × SignalState)
unfolding step
run [] s = some ([], s)
run (e ∷ events) s =
    step e s >>= λ (calls, s'). run events s' >>= λ (more, s''). some (calls ++ more, s'')
