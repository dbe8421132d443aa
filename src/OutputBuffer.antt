-- ===== src/OutputBuffer.antt =====
-- `OutputBuffer` (src/OutputBuffer.h, src/OutputBuffer.cpp): the program's output in a circular
-- buffer, and the readers that wait for more of it. Each function is what one call does while it
-- holds the mutex; a read that has to wait is two such steps, `read` before the wait and `wake` or
-- `time_out` after it.
pub mod Spec
pub mod Read
pub mod Write
pub mod Close
pub mod Wait
pub mod Race
pub mod New
pub mod System
use ml_gridengine_executor.Base.{
  ℕ, ◌+◌, ◌-◌, ◌≤◌, List, [], Bool, true, false, not, Option, none, some, min, ltb, leb, ◌>>=◌,
  if◌then◌else◌, length, drop, add64, sub64, ℤ, pos, negsuc, to_word, of_word,
}
use ml_gridengine_executor.Result.{Result, ok, throws, illegal_state, or_fault}
use ml_gridengine_executor.ReadResult.{ReadResult, result, closed, timeout}
use ml_gridengine_executor.Memory.{load}
use ml_gridengine_executor.Ring.{Ring, circular_read, overwrite}
use ml_gridengine_executor.Heap.{ReadRequest, PairingHeap}
use ml_gridengine_executor.Readers.{ReaderList, waiting, update, add, cancel, process}
use ml_gridengine_executor.Readers

-- The constructor: `malloc(maxCapacity)`, of which `min(initialCapacity, maxCapacity)` is used.
unfoldable pub new_ring : (ℕ → List ℕ) → ℕ → ℕ → Ring
new_ring malloc max_capacity initial_capacity = record {
  buffer = malloc max_capacity;
  capacity = min initial_capacity max_capacity;
  max_capacity = max_capacity;
  size = 0;
  head = 0;
  written_bytes = 0;
}

-- `translateNegativeBegin`: `begin += _writtenBytes` adds as unsigned words, and what is negative
-- after that becomes zero.
unfoldable pub add_written : ℕ → ℤ → ℤ
add_written written (pos n) = pos n
add_written written (negsuc n) = of_word (add64 (to_word (negsuc n)) written)

unfoldable pub at_least_zero : ℤ → ℤ
at_least_zero (pos n) = pos n
at_least_zero (negsuc n) = pos 0

unfoldable pub translate_negative_begin : ℕ → ℤ → ℕ
unfolding add_written at_least_zero to_word of_word add64
translate_negative_begin written begin = to_word (at_least_zero (add_written written begin))

-- The lambda of `write`, which answers a waiting request from the bytes just written.
unfoldable pub answer_from : ℕ → ℕ → List ℕ → ReadRequest → Option (ReadResult × List ℕ)
answer_from old_written written bytes x =
    let n : ℕ = min x.count (sub64 written x.begin) in
    if leb old_written x.begin
    then (do
      target ← load (drop (sub64 x.begin old_written) bytes) n
      some (result x.begin n, target))
    else none

module _ (H : PairingHeap) where
  pub record OutputBuffer : Type 0 where
    pub ring : Ring
    pub is_closed : Bool
    pub readers : ReaderList H

  -- What `write` does to a buffer that is not closed.
  unfoldable pub write_open : (ℕ → List ℕ) → OutputBuffer → List ℕ → Option OutputBuffer
  write_open malloc b bytes = do
    (lost, ring) ← overwrite malloc b.ring bytes
    readers ←
        process H ring.written_bytes (answer_from b.ring.written_bytes ring.written_bytes bytes)
          b.readers
    some (record b { ring = ring; readers = readers })

  -- `write(data, count)`, with `count` the length of `bytes`
  unfoldable pub write : (ℕ → List ℕ) → OutputBuffer → List ℕ → Result OutputBuffer
  write malloc b bytes =
      if b.is_closed then throws illegal_state else or_fault (write_open malloc b bytes)

  -- `_tryRead(begin, target, count)`: the result, and the bytes copied to `target`
  unfoldable pub try_read : OutputBuffer → ℕ → ℕ → Option (ReadResult × List ℕ)
  try_read b begin count =
      let oldest : ℕ = sub64 b.ring.written_bytes b.ring.size in
      let start : ℕ = if leb begin oldest then 0 else sub64 begin oldest in
      if ltb begin b.ring.written_bytes
      then (do
        bytes ← circular_read b.ring count start
        some (result (add64 oldest start) (length bytes), bytes))
      else if b.is_closed
      then some (closed, [])
      else some (timeout, [])

  -- `tryRead(begin, target, count)`
  unfoldable pub try_read_at : OutputBuffer → ℤ → ℕ → Option (ReadResult × List ℕ)
  unfolding try_read translate_negative_begin
  try_read_at b begin count = try_read b (translate_negative_begin b.ring.written_bytes begin) count

  -- What `read` has done when it returns, or when it starts to wait.
  pub data Reading : Type 0 where
    returns : ReadResult → List ℕ → Reading
    waits : ReadRequest → OutputBuffer → Reading

  -- The request that `read` makes and adds, `id` being its identity.
  unfoldable pub enqueue : OutputBuffer → ReadRequest → OutputBuffer
  unfolding add
  enqueue b x = record b {
    readers = add H x (record b.readers { requests = update b.readers.requests x.id waiting });
  }

  unfoldable pub read : OutputBuffer → ℕ → ℤ → ℕ → Option Reading
  unfolding try_read translate_negative_begin enqueue
  read b id begin count =
      let position : ℕ = translate_negative_begin b.ring.written_bytes begin in
      let request : ReadRequest = record { id = id; begin = position; count = count } in
      try_read b position count >>= λ (answer, bytes).
      if answer.is_timeout
      then some (waits request (enqueue b request))
      else some (returns answer bytes)

  -- After the wait: `return reader->result`
  unfoldable pub wake : OutputBuffer → ReadRequest → ReadResult × List ℕ
  wake b x = ((b.readers.requests x.id).result, (b.readers.requests x.id).target)

  -- After the wait: `catch (Poco::TimeoutException const&)`
  unfoldable pub time_out : OutputBuffer → ReadRequest → ReadResult × OutputBuffer
  unfolding cancel
  time_out b x = (timeout, record b { readers = cancel H x b.readers })

  -- What `close` does to a buffer that is not closed.
  unfoldable pub close_open : OutputBuffer → Option OutputBuffer
  close_open b = do
    readers ← Readers.close H b.readers
    some (record b { is_closed = true; readers = readers })

  -- `close()`
  unfoldable pub close : OutputBuffer → Option OutputBuffer
  close b = if b.is_closed then some b else close_open b

  -- The destructor, until it frees what the buffer owns.
  unfoldable pub destroy_buffer : OutputBuffer → Option OutputBuffer
  unfolding close
  destroy_buffer b = if not b.is_closed then close b else some b

-- The constructor: an empty ring, open, with nobody waiting.
module _ (H : PairingHeap) where
  unfoldable pub new_buffer : (ℕ → List ℕ) → ℕ → ℕ → OutputBuffer H
  unfolding new_ring
  new_buffer malloc max_capacity initial_capacity = record {
    ring = new_ring malloc max_capacity initial_capacity;
    is_closed = false;
    readers = record { heap = H.empty; heap_size = 0; active_count = 0; requests = λ id. waiting };
  }
