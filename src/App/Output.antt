-- ===== src/App/Output.antt =====
-- The output in `runApp` (src/main.cpp): it is collected, the buffer is closed, and what it keeps is saved.
pub mod Saves
use Prim.Native.String.{String}
use text.Mathlib.Text.{◌==◌}
use ml_gridengine_executor.Base.{
  ℕ, suc, ◌*◌, List, Bool, true, false, not, ◌||◌, Option, none, some, if◌then◌else◌,
}
use ml_gridengine_executor.Heap.{PairingHeap}
use ml_gridengine_executor.OutputBuffer.{OutputBuffer, new_buffer}
use ml_gridengine_executor.OutputBuffer
use ml_gridengine_executor.IoController
use ml_gridengine_executor.SaveOutput.{discarded, save_loop}
use ml_gridengine_executor.Result.{ok}
use ml_gridengine_executor.App.Monad.{Run, ◌>>=◌, done, called, ended, required}

-- What is saved: the number of bytes that the first line says are missing, if any are, and the rest.
abbrev pub Saved : Type 0
Saved = Option ℕ × List ℕ

module _ (H : PairingHeap) (malloc : ℕ → List ℕ) where
  -- `OutputBuffer outputBuffer(_bufferSize)`, the IO controller from its start to `join`, and `close`. The
  -- reads are what the calls of `readOutput` give that return. If the last of them is neither the end of
  -- the output nor an error, another read blocks and `join` does not return.
  unfoldable pub collect : ℕ → List (Option (List ℕ)) → Run (OutputBuffer H)
  collect size reads = do
    b ← called (IoController.run H malloc reads (new_buffer H malloc size (64 * 1024)))
    if IoController.ends reads then required (OutputBuffer.close H b) else ok none

module _ (H : PairingHeap) where
  -- The saving of the output; `opens` tells whether the file can be opened.
  unfoldable pub save : String → Bool → OutputBuffer H → Run (Option Saved)
  save output_file opens b = if (output_file == "") || not opens then done none else (do
    bytes ← ended (save_loop H (suc b.ring.written_bytes) b 8192 0)
    done (some (discarded b, bytes)))
