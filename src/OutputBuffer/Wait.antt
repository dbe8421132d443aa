-- ===== src/OutputBuffer/Wait.antt =====
-- `read` (src/OutputBuffer.cpp): when it returns at once, when it waits, and a wait that times out.
use native.Mathlib.Decide.{ℕ_discrete}
use ml_gridengine_executor.Base.{
  ℕ, ◌+◌, ◌^◌, ◌≤◌, ◌<◌, ◌≡◌, refl, sym, ◌∙◌, List, false, some, arith, if◌then◌else◌, length, ℤ,
  IsSsize,
}
use ml_gridengine_executor.ReadResult.{timeout}
use ml_gridengine_executor.Heap.{ReadRequest, PairingHeap}
use ml_gridengine_executor.Readers.{update, waiting, cancel}
use ml_gridengine_executor.Readers.Weigh.{
  weigh, has_id, weigh-push, before, before-zero, late_of_before,
}
use ml_gridengine_executor.Readers.Counts.{active-update, add-Counts, cancel-Counts, cancel-le}
use ml_gridengine_executor.OutputBuffer.{
  OutputBuffer, Reading, returns, waits, read, enqueue, time_out,
}
use ml_gridengine_executor.OutputBuffer.Spec.{read_spec, Keeps, Holds, Represents, holds}
use ml_gridengine_executor.OutputBuffer.Read.{
  position, translate_negative_begin-position, try_read-read_spec,
}

has_id-le : (k : ℕ) (x : ReadRequest) → has_id k x ≤ 1
has_id-le k x = ground arith

module _ (H : PairingHeap) where
  open H use {items}

  -- The request that a call of `read` makes.
  abbrev pub request : OutputBuffer H → ℕ → ℤ → ℕ → ReadRequest
  request b id begin count = record {
    id = id;
    begin = position b.ring.written_bytes begin;
    count = count;
  }

  -- `read` in terms of the history: it waits exactly when there is nothing to return yet.
  abbrev pub Reads : OutputBuffer H → List ℕ → ReadRequest → Reading H
  Reads b history x =
      if (read_spec b.is_closed b.ring.max_capacity history x.begin x.count).0.is_timeout
      then waits x (enqueue H b x)
      else returns (read_spec b.is_closed b.ring.max_capacity history x.begin x.count).0
          (read_spec b.is_closed b.ring.max_capacity history x.begin x.count).1

  -- In a buffer that keeps a history, for a position in the range of `ssize_t`, `read` does not
  -- fault. It returns what the history holds at its position, or Closed; it waits exactly when
  -- the position is not reached and the buffer is open.
  pub read-Reads :
      (b : OutputBuffer H) (history : List ℕ) (id : ℕ) (begin : ℤ) (count : ℕ)
      → Keeps b.ring history
      → IsSsize begin
      → read H b id begin count ≡ some (Reads b history (request b id begin count))
  unfolding read
  read-Reads b history id begin count k range =
      rw
        (
          translate_negative_begin-position b.ring.written_bytes begin
              (omega (arith, k.written, k.in_range)) range,
          try_read-read_spec H b history (position b.ring.written_bytes begin) count k,
        )
        (ground arith)

  -- A new request for a position that is not reached leaves the buffer holding its history.
  pub enqueue-Holds :
      (b : OutputBuffer H) (history : List ℕ) (x : ReadRequest)
      → Holds H b history
      → length history ≤ x.begin
      → weigh (has_id x.id) (items b.readers.heap) ≡ 0
      → Holds H (enqueue H b x) history
  unfolding enqueue
  enqueue-Holds b history x rep late fresh = record {
    keeps = rep.keeps;
    distinct = λ k. elim (ℕ_discrete x.id k) [
      | yes e ↦
          let none_there : weigh (has_id k) (items b.readers.heap) ≡ 0 = rw e at fresh in
          omega (arith, weigh-push H (has_id k) x b.readers.heap, has_id-le k x)
      | no e ↦
          let other : has_id k x ≡ 0 = ground arith in
          omega (arith, weigh-push H (has_id k) x b.readers.heap, rep.distinct k)
    ];
    late = late_of_before (length history) (items (H.push x b.readers.heap)) (
        let after : before (length history) x ≡ 0 = ground arith in
        omega (
          arith,
          weigh-push H (before (length history)) x b.readers.heap,
          before-zero (length history) (items b.readers.heap) rep.late,
        ));
  }

  -- A wait that times out, whether its request is still in the heap or has just been answered,
  -- leaves the buffer holding its history.
  pub time_out-Holds :
      (b : OutputBuffer H) (history : List ℕ) (x : ReadRequest)
      → Holds H b history
      → Holds H (time_out H b x).1 history
  unfolding time_out
  time_out-Holds b history x rep = record {
    keeps = rep.keeps;
    distinct = λ k. omega (arith, cancel-le H (has_id k) x b.readers, rep.distinct k);
    late = late_of_before (length history) (items (cancel H x b.readers).heap) (
        omega (
          arith,
          cancel-le H (before (length history)) x b.readers,
          before-zero (length history) (items b.readers.heap) rep.late,
        ));
  }

  -- A new request for a position that is not reached, added where there is room for one more,
  -- leaves the buffer representing its history.
  pub enqueue-Represents :
      (b : OutputBuffer H) (history : List ℕ) (x : ReadRequest)
      → Represents H b history
      → length history ≤ x.begin
      → weigh (has_id x.id) (items b.readers.heap) ≡ 0
      → b.readers.heap_size + 1 < 2 ^ 60
      → Represents H (enqueue H b x) history
  unfolding enqueue
  enqueue-Represents b history x rep late fresh room = record {
    keeps = rep.keeps;
    counts =
        add-Counts H x (record b.readers { requests = update b.readers.requests x.id waiting }) room
          (ground arith)
          (record {
            sized = rep.counts.sized;
            counted =
                rep.counts.counted
                ∙ sym (active-update b.readers.requests x.id waiting (items b.readers.heap) fresh);
            small = rep.counts.small;
          });
    distinct = (enqueue-Holds b history x (holds H rep) late fresh).distinct;
    late = (enqueue-Holds b history x (holds H rep) late fresh).late;
  }

  -- A wait that times out while its request is in the heap, once and not cancelled, leaves the
  -- buffer representing its history, and the call returns Timeout.
  pub time_out-Represents :
      (b : OutputBuffer H) (history : List ℕ) (x : ReadRequest)
      → Represents H b history
      → (b.readers.requests x.id).cancelled ≡ false
      → weigh (has_id x.id) (items b.readers.heap) ≡ 1
      → Represents H (time_out H b x).1 history × ((time_out H b x).0 ≡ timeout)
  unfolding time_out
  time_out-Represents b history x rep e once = (
    record {
      keeps = rep.keeps;
      counts = cancel-Counts H x b.readers e once rep.counts;
      distinct = (time_out-Holds b history x (holds H rep)).distinct;
      late = (time_out-Holds b history x (holds H rep)).late;
    },
    refl,
  )
