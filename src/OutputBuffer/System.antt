-- ===== src/OutputBuffer/System.antt =====
-- An output buffer with its writer and any number of readers (src/OutputBuffer.cpp), as a relation of
-- steps: each is what one thread does while it holds the mutex, so that a sequence of steps is one of
-- the orders in which the threads may come.
pub mod Invariant
pub mod Writes
pub mod Waits
pub mod Timeouts
pub mod Closes
pub mod Safety
pub mod Bounds
use ml_gridengine_executor.Base.{
  ℕ, ◌+◌, ◌^◌, ◌<◌, ◌≡◌, List, [], ◌++◌, true, false, Option, none, some, if◌then◌else◌, ◌==◌,
  length, ℤ, IsSsize,
}
use ml_gridengine_executor.Result.{ok}
use ml_gridengine_executor.ReadResult.{ReadResult}
use ml_gridengine_executor.Heap.{ReadRequest, PairingHeap}
use ml_gridengine_executor.Readers.Weigh.{weigh, has_id}
use ml_gridengine_executor.OutputBuffer.{
  OutputBuffer, returns, waits, new_buffer, write, read, time_out, close,
}

-- The calls of `read` that wait, by the identities of their requests.
abbrev pub Calls : Type 0
Calls = ℕ → Option ReadRequest

abbrev pub set_call : ℕ → Option ReadRequest → Calls → Calls
set_call k call calls j = if j == k then call else calls j

module _ (H : PairingHeap) (malloc : ℕ → List ℕ) where
  open H use {items}

  -- The buffer, all that has been written to it, and the calls that wait.
  pub record System : Type 0 where
    pub buffer : OutputBuffer H
    pub history : List ℕ
    pub calls : Calls

  -- The identity of a request is its address, which no other request has that is still referred to. A
  -- wait may time out at any time, also after its request has been answered and before its thread
  -- runs again (see Race for what that does to the counters of the readers).
  pub data Step (s : System) : System → Type 0 where
    writes :
        (bytes : List ℕ) (b : OutputBuffer H)
        → length s.history + length bytes < 2 ^ 63
        → write H malloc s.buffer bytes ≡ ok b
        → Step s (record s { buffer = b; history = s.history ++ bytes })
    reads :
        (id : ℕ) (begin : ℤ) (count : ℕ) (r : ReadResult) (bytes : List ℕ)
        → read H s.buffer id begin count ≡ some (returns r bytes)
        → Step s s
    starts_waiting :
        (id : ℕ) (begin : ℤ) (count : ℕ) (x : ReadRequest) (b : OutputBuffer H)
        → IsSsize begin
        → s.calls id ≡ none
        → weigh (has_id id) (items s.buffer.readers.heap) ≡ 0
        → read H s.buffer id begin count ≡ some (waits x b)
        → Step s (record s { buffer = b; calls = set_call id (some x) s.calls })
    wakes :
        (x : ReadRequest)
        → s.calls x.id ≡ some x
        → (s.buffer.readers.requests x.id).signalled ≡ true
        → Step s (record s { calls = set_call x.id none s.calls })
    times_out :
        (x : ReadRequest)
        → s.calls x.id ≡ some x
        → Step s
            (record s { buffer = (time_out H s.buffer x).1; calls = set_call x.id none s.calls })
    closes : (b : OutputBuffer H) → close H s.buffer ≡ some b → Step s (record s { buffer = b })

  -- A new buffer of `size` bytes.
  abbrev pub initial : ℕ → ℕ → System
  initial size initial_size = record {
    buffer = new_buffer H malloc size initial_size;
    history = [];
    calls = λ id. none;
  }

  pub data Reach (s : System) : System → Type 0 where
    here : Reach s s
    next : {t u : System} → Reach s t → Step t u → Reach s u
