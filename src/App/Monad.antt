-- ===== src/App/Monad.antt =====
-- A run of the executor may end with a value, throw, fault, or never end, `ok none`.
use ml_gridengine_executor.Base.{Option, none, some}
use ml_gridengine_executor.Result.{Result, ok, throws, fault}

abbrev pub Run {ℓ} : Type ℓ → Type ℓ
Run A = Result (Option A)

infixl 5 ◌>>=◌
abbrev pub ◌>>=◌ {ℓ κ} : {A : Type ℓ} {B : Type κ} → Run A → (A → Run B) → Run B
ok none >>= f = ok none
ok (some a) >>= f = f a
throws e >>= f = throws e
fault >>= f = fault

abbrev pub done {ℓ} : {A : Type ℓ} → A → Run A
done a = ok (some a)

-- A call that returns or throws.
abbrev pub called {ℓ} : {A : Type ℓ} → Result A → Run A
called (ok a) = ok (some a)
called (throws e) = throws e
called fault = fault

-- A call that may not end.
abbrev pub ended {ℓ} : {A : Type ℓ} → Option A → Run A
ended o = ok o

-- A call that may fault.
abbrev pub required {ℓ} : {A : Type ℓ} → Option A → Run A
required none = fault
required (some a) = ok (some a)
