-- ===== src/Result.antt =====
-- How a call of the executor's C++ ends: with a value, with an exception, or with a fault, which is
-- behaviour that C++ leaves undefined (an access out of bounds, a division by zero, a failed assert).
use ml_gridengine_executor.Base.{Option, none, some}

-- The exceptions of Poco that the executor throws.
pub data Exception : Type 0 where
  illegal_state invalid_argument system_error syntax_error file_error : Exception

pub data Result {ℓ} (A : Type ℓ) : Type ℓ where
  ok : A → Result A
  throws : Exception → Result A
  fault : Result A

abbrev pub or_fault {ℓ} : {A : Type ℓ} → Option A → Result A
or_fault none = fault
or_fault (some a) = ok a
