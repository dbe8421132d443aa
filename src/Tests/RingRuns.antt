-- ===== src/Tests/RingRuns.antt =====
-- Runs of the circular buffer of `OutputBuffer` (src/OutputBuffer.cpp).
use ml_gridengine_executor.Base.{◌≡◌, arith, [], ◌∷◌, some}
use ml_gridengine_executor.Ring.{Ring, overwrite}
use ml_gridengine_executor.Ring.Appended.{Overwrote}
use ml_gridengine_executor.Ring.Overwrite.{overwrite-Overwrote}
use ml_gridengine_executor.Tests.{zeros, zeros-Allocates, turned, turned-IsValid}

overwrite-Overwrote_example :
    (r' : Ring) × (overwrite zeros turned (4 ∷ 5 ∷ 6 ∷ 7 ∷ []) ≡ some (1, r'))
    × Overwrote 6 turned r' (4 ∷ 5 ∷ 6 ∷ 7 ∷ [])
overwrite-Overwrote_example =
    overwrite-Overwrote zeros zeros-Allocates (4 ∷ 5 ∷ 6 ∷ 7 ∷ []) turned-IsValid (omega arith)
      (omega arith)
