-- ===== src/SaveOutput.antt =====
-- Saving the output to a file when the program has ended (src/main.cpp, `runApp`).
pub mod Loop
use mathlib.Core.Option
use ml_gridengine_executor.Base.{
  ℕ, zero, suc, List, [], ◌++◌, Bool, true, false, Option, none, some, ltb, if◌then◌else◌, ◌>>=◌,
  add64, sub64, of_word,
}
use ml_gridengine_executor.ReadResult.{ReadResult}
use ml_gridengine_executor.Heap.{PairingHeap}
use ml_gridengine_executor.OutputBuffer.{OutputBuffer, Reading, returns, waits, read}

-- The number of bytes that the first line of the file says have been discarded, if it has such a line.
unfoldable pub discarded : {H : PairingHeap} → OutputBuffer H → Option ℕ
discarded b =
    if ltb b.ring.size b.ring.written_bytes
    then some (sub64 b.ring.written_bytes b.ring.size)
    else none

module _ (H : PairingHeap) where
  -- What the loop does with a reading: it stops at the result Closed; it waits for ever if it has to
  -- wait.
  unfoldable pub save_reading : (ℕ → Option (List ℕ)) → Reading H → Option (List ℕ)
  save_reading next (waits x b) = none
  save_reading next (returns r bytes) =
      let rest = next (add64 r.begin r.count) in
      if r.is_closed then some [] else Option.map (λ more. bytes ++ more) rest

  -- The loop that reads `size` bytes at a time from `begin` on: the bytes it writes to the file.
  -- `none` means that it does not end, or that the fuel ran out.
  unfoldable pub save_loop : ℕ → OutputBuffer H → ℕ → ℕ → Option (List ℕ)
  unfolding save_reading
  save_loop zero b size begin = none
  save_loop (suc fuel) b size begin =
      read H b 0 (of_word begin) size >>= save_reading (save_loop fuel b size)
