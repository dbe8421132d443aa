-- ===== src/ReadResult.antt =====
-- `ReadResult` (src/OutputBuffer.h): what a read request is answered.
use ml_gridengine_executor.Base.{ℕ, Bool, true, false}

pub record ReadResult : Type 0 where
  pub is_closed : Bool
  pub is_timeout : Bool
  pub begin : ℕ
  pub count : ℕ

-- ReadResult(begin, count)
abbrev pub result : ℕ → ℕ → ReadResult
result begin count = record { is_closed = false; is_timeout = false; begin = begin; count = count }

-- ReadResult::Closed()
abbrev pub closed : ReadResult
closed = record { is_closed = true; is_timeout = false; begin = 0; count = 0 }

-- ReadResult::Timeout()
abbrev pub timeout : ReadResult
timeout = record { is_closed = false; is_timeout = true; begin = 0; count = 0 }
