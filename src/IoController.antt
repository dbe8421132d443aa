-- ===== src/IoController.antt =====
-- `IOController` (src/IOController.h, src/IOController.cpp): the thread that copies what the program
-- writes to its pipe into the output buffer.
pub mod Run
pub mod Pipeline
use ml_gridengine_executor.Base.{
  ℕ, List, [], ◌∷◌, Bool, true, false, Option, none, some, if◌then◌else◌,
}
use ml_gridengine_executor.Result.{Result, ok, throws, fault, illegal_state}
use ml_gridengine_executor.Heap.{PairingHeap}
use ml_gridengine_executor.OutputBuffer.{OutputBuffer, write}

-- The flag `_running`, and whether the thread has been started and not joined.
pub record IoController : Type 0 where
  pub running : Bool
  pub thread : Bool

-- `start()`
unfoldable pub start : IoController → Result IoController
start c = if c.running then throws illegal_state else ok (record { running = true; thread = true })

-- `join()`
unfoldable pub join : IoController → IoController
join c = record { running = false; thread = if c.running then false else c.thread }

-- Whether these reads come to the end of the output, or to an error.
unfoldable pub ends : List (Option (List ℕ)) → Bool
ends [] = false
ends (none ∷ reads) = true
ends (some [] ∷ reads) = true
ends (some (x ∷ xs) ∷ reads) = ends reads

module _ (H : PairingHeap) (malloc : ℕ → List ℕ) where
  -- The loop of `_run()`, by what the calls of `readOutput` give: bytes, none of them at the end of
  -- the output, or an error, `none`. It is the buffer after these calls.
  unfoldable pub run : List (Option (List ℕ)) → OutputBuffer H → Result (OutputBuffer H)
  run [] b = ok b
  run (none ∷ reads) b = ok b
  run (some [] ∷ reads) b = ok b
  run (some (x ∷ xs) ∷ reads) b = elim (write H malloc b (x ∷ xs)) [
    | ok b' ↦ run reads b'
    | throws e ↦ throws e
    | fault ↦ fault
  ]
