-- ===== src/OutputBuffer/Race.antt =====
-- A wait that times out late. `Poco::Condition::wait` gives up its wait, and then takes the mutex
-- again before it throws: in between, a writer that holds the mutex can answer the request and take
-- it out of the heap. `read` (src/OutputBuffer.cpp) then calls `cancel` all the same.
use mathlib.Core.List.{Mem}
use ml_gridengine_executor.Base.{
  ℕ, ◌+◌, ◌^◌, ◌<◌, ◌≡◌, ◌≢◌, List, ◌++◌, true, false, arith, sym, refl, ◌∙◌, length, sub64, word,
}
use ml_gridengine_executor.Result.{ok}
use ml_gridengine_executor.ReadResult.{timeout}
use ml_gridengine_executor.Ring.Expand.{Allocates}
use ml_gridengine_executor.Heap.{ReadRequest, PairingHeap}
use ml_gridengine_executor.Readers.{ReaderList, cancel}
use ml_gridengine_executor.Readers.Weigh.{weigh, has_id}
use ml_gridengine_executor.Readers.Counts.{
  Counts, active-update, active-le, active_count-cancel, active-cancel,
}
use ml_gridengine_executor.OutputBuffer.{OutputBuffer, write, time_out, wake}
use ml_gridengine_executor.OutputBuffer.Spec.{Represents}
use ml_gridengine_executor.OutputBuffer.Write.{write-Written, owed}

fewer-ne : (n : ℕ) → n < word → sub64 n 1 ≢ n
unfolding sub64
fewer-ne n h = ground arith

module _ (H : PairingHeap) where
  open H use {items}

  Counts-small : {l : ReaderList H} → Counts H l → l.active_count < word
  Counts-small {l} c =
      omega (arith, c.sized, c.counted, c.small, active-le l.requests (items l.heap))

  -- Cancelling a request that is no longer in the heap makes `_activeCount` wrong.
  pub cancel-not_Counts :
      (x : ReadRequest) (l : ReaderList H)
      → Counts H l
      → l.active_count < word
      → weigh (has_id x.id) (items l.heap) ≡ 0
      → ¬ Counts H (cancel H x l)
  cancel-not_Counts x l c small gone bad = fewer-ne l.active_count small (
      sym (active_count-cancel H x l)
      ∙ bad.counted
      ∙ active-cancel H x l
      ∙ active-update l.requests x.id (record (l.requests x.id) { cancelled = true }) (items l.heap)
          gone
      ∙ sym c.counted)

  -- With a malloc that allocates and fewer than 2 ^ 63 bytes in all, a write to an open buffer
  -- answers a request `x` that waits, is not cancelled and is reached; the reader's wait has
  -- timed out meanwhile. The call then returns Timeout although the answer is there, and leaves a
  -- list whose counters are wrong.
  pub late_time_out :
      (malloc : ℕ → List ℕ) (b : OutputBuffer H) (history bytes : List ℕ) (x : ReadRequest)
      → Allocates malloc
      → Represents H b history
      → b.is_closed ≡ false
      → length history + length bytes < 2 ^ 63
      → Mem x (items b.readers.heap)
      → (b.readers.requests x.id).cancelled ≡ false
      → x.begin < length history + length bytes
      → (b' : OutputBuffer H) × (write H malloc b bytes ≡ ok b')
        × (wake H b' x ≡ owed (history ++ bytes) x)
        × ((time_out H b' x).0 ≡ timeout)
        × (¬ Counts H (time_out H b' x).1.readers)
  unfolding time_out
  late_time_out malloc b history bytes x alloc rep open_b range m e lt =
      let (b', eq, w) = write-Written H malloc alloc bytes rep range open_b in
      let rep' : Represents H b' (history ++ bytes) = w.represents in
      (
        b',
        eq,
        (w.wakes x m lt e).0,
        refl,
        cancel-not_Counts x b'.readers rep'.counts (Counts-small rep'.counts) (w.removes x m lt),
      )
