-- ===== src/Tests/SystemRuns.antt =====
-- Runs of an output buffer with its threads (src/OutputBuffer.cpp): a reader waits, the writer comes.
use ml_gridengine_executor.Base.{
  ℕ, ◌≤◌, ◌<◌, ◌≡◌, ◌⊎◌, inl, refl, arith, List, [], ◌∷◌, true, none, some, pos, take, add64, sub64,
}
use ml_gridengine_executor.ReadResult.{closed}
use ml_gridengine_executor.Heap.{ReadRequest, list_heap, list_top, list_pop}
use ml_gridengine_executor.Memory.{memcpy, rem, splice}
use ml_gridengine_executor.Ring.{overwrite, copy_all, circular_write, copy_in}
use ml_gridengine_executor.Readers.{process}
use ml_gridengine_executor.OutputBuffer.{
  OutputBuffer, new_buffer, enqueue, write, write_open, answer_from, read, close, wake,
}
use ml_gridengine_executor.OutputBuffer.Write.{owed}
use ml_gridengine_executor.OutputBuffer.System.Writes.{value_or}
use ml_gridengine_executor.OutputBuffer.System.{
  System, writes, starts_waiting, initial, set_call, Reach, here, next,
}
use ml_gridengine_executor.OutputBuffer.System.Safety.{
  woken_answers, no_lost_wakeup, close_ends_waits,
}
use ml_gridengine_executor.OutputBuffer.System.Bounds.{holds_last}
use ml_gridengine_executor.Ring.Contents.{contents}
use ml_gridengine_executor.Base.{take_last}
use ml_gridengine_executor.Result.{ok}
use ml_gridengine_executor.IoController.{run}
use ml_gridengine_executor.IoController.Pipeline.{filled, output_ends}
use ml_gridengine_executor.Tests.{zeros, zeros-Allocates, waiter}

-- A buffer of at most four bytes, in which a reader waits for two bytes from position 1 on.
abbrev one_waits : System list_heap zeros
one_waits = record {
  buffer = enqueue list_heap (new_buffer list_heap zeros 4 2) waiter;
  history = [];
  calls = set_call 7 (some waiter) (λ id. none);
}

waits_step : Reach list_heap zeros (initial list_heap zeros 4 2) one_waits
unfolding read new_buffer
waits_step = next here (starts_waiting 7 (pos 1) 2 waiter _ (omega arith) refl refl refl)

abbrev three : List ℕ
three = 5 ∷ 6 ∷ 7 ∷ []

abbrev answered_buffer : OutputBuffer list_heap
answered_buffer = value_or one_waits.buffer (write list_heap zeros one_waits.buffer three)

-- Then three bytes are written.
abbrev one_answered : System list_heap zeros
one_answered = record one_waits { buffer = answered_buffer; history = three }

answered_step : Reach list_heap zeros (initial list_heap zeros 4 2) one_answered
unfolding write write_open overwrite add64 copy_all memcpy sub64 circular_write rem copy_in splice
    process list_top answer_from list_pop enqueue new_buffer
answered_step = next waits_step (writes three answered_buffer (omega arith) refl)

woken_answers_example :
    ((n : ℕ) × (1 < n)
      × (n ≤ 3)
      × (wake list_heap answered_buffer waiter ≡ owed (take n three) waiter))
    ⊎ (((wake list_heap answered_buffer waiter).0 ≡ closed)
        × (answered_buffer.is_closed ≡ true)
        × (3 ≤ 1))
unfolding write write_open overwrite add64 copy_all memcpy sub64 circular_write rem copy_in splice
    process list_top answer_from list_pop enqueue new_buffer
woken_answers_example =
    woken_answers list_heap zeros 4 2 zeros-Allocates (omega arith) (omega arith) (omega arith)
      answered_step waiter refl refl

no_lost_wakeup_example : (answered_buffer.readers.requests 7).signalled ≡ true
no_lost_wakeup_example =
    no_lost_wakeup list_heap zeros 4 2 zeros-Allocates (omega arith) (omega arith) (omega arith)
      answered_step waiter refl (inl (omega arith))

close_ends_waits_example :
    (b : OutputBuffer list_heap) × (close list_heap one_waits.buffer ≡ some b)
    × ((x : ReadRequest)
        → one_waits.calls x.id ≡ some x
        → (b.readers.requests x.id).signalled ≡ true)
close_ends_waits_example =
    close_ends_waits list_heap zeros 4 2 zeros-Allocates (omega arith) (omega arith) (omega arith)
      waits_step

holds_last_example :
    (answered_buffer.ring.capacity ≤ 4)
    × (contents answered_buffer.ring ≡ take_last 4 three)
    × (answered_buffer.ring.written_bytes ≡ 3)
holds_last_example =
    holds_last list_heap zeros 4 2 zeros-Allocates (omega arith) (omega arith) (omega arith)
      answered_step

output_ends_example :
    (b b' : OutputBuffer list_heap) × (run list_heap zeros
        (some three ∷ some [] ∷ [])
        one_waits.buffer
      ≡ ok b)
    × (close list_heap b ≡ some b')
    × Reach list_heap zeros
        (initial list_heap zeros 4 2)
        (filled list_heap zeros zeros-Allocates one_waits b' three)
    × ((x : ReadRequest)
        → one_waits.calls x.id ≡ some x
        → ((b'.readers.requests x.id).signalled ≡ true)
          × (((n : ℕ) × (x.begin < n) × (n ≤ 3) × (wake list_heap b' x ≡ owed (take n three) x))
              ⊎ (((wake list_heap b' x).0 ≡ closed) × (b'.is_closed ≡ true) × (3 ≤ x.begin))))
unfolding enqueue new_buffer
output_ends_example =
    output_ends list_heap zeros zeros-Allocates 4 2 (omega arith) (omega arith) (omega arith)
      (some three ∷ some [] ∷ []) waits_step refl (omega arith)
