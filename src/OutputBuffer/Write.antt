-- ===== src/OutputBuffer/Write.antt =====
-- `write` (src/OutputBuffer.cpp): the buffer goes on representing its history, and every request
-- that waits for bytes that are now there gets exactly those.
use mathlib.Core.List.{Mem}
use ml_gridengine_executor.Base.{
  ℕ, ◌+◌, ◌-◌, ◌^◌, ◌≤◌, ◌<◌, ◌≡◌, refl, sym, ap, ◌∙◌, List, ◌++◌, true, false, some, arith, min,
  leb-true, if◌then◌else◌, ◌>>=◌, length, take, drop, take_last, drop-append, drop_all, length-drop,
  length-take, length-append, take-min-length, take_last-append, sub64_lem, word,
}
use ml_gridengine_executor.Result.{ok, throws, illegal_state, or_fault}
use ml_gridengine_executor.ReadResult.{ReadResult, result}
use ml_gridengine_executor.Memory.{load-some}
use ml_gridengine_executor.Ring.{Ring, overwrite}
use ml_gridengine_executor.Ring.Expand.{Allocates}
use ml_gridengine_executor.Ring.Overwrite.{overwrite-Overwrote}
use ml_gridengine_executor.Heap.{ReadRequest, PairingHeap}
use ml_gridengine_executor.Readers.{ReaderList, process}
use ml_gridengine_executor.Readers.Weigh.{has_id, weigh, from}
use ml_gridengine_executor.Readers.Counts.{Counts}
use ml_gridengine_executor.Readers.Reached.{
  Processed, Processed-late, Processed-Distinct, Processed-gone, reached, answered,
}
use ml_gridengine_executor.Readers.Process.{process-Processed}
use ml_gridengine_executor.OutputBuffer.{OutputBuffer, answer_from, write_open, write, wake}
use ml_gridengine_executor.OutputBuffer.Spec.{piece, Keeps, size-Keeps, Holds, Represents, holds}

-- The answer that a waiting request is owed once the history has reached its position.
abbrev pub owed : List ℕ → ReadRequest → ReadResult × List ℕ
owed history x =
    let bytes : List ℕ = piece history x.begin x.count in (result x.begin (length bytes), bytes)

module _ (history bytes : List ℕ) (x : ReadRequest) (late : length history ≤ x.begin)
    (reached : x.begin < length history + length bytes)
    (in_range : length history + length bytes < word) where
  drop-history : drop x.begin (history ++ bytes) ≡ drop (x.begin - length history) bytes
  drop-history =
      drop-append x.begin history bytes
      ∙ ap (λ l. l ++ drop (x.begin - length history) bytes) (drop_all x.begin history late)

  -- The bytes just written hold what a request that waited is owed.
  answer_from-owed :
      answer_from (length history) (length history + length bytes) bytes x
      ≡ some (owed (history ++ bytes) x)
  unfolding answer_from
  answer_from-owed =
      let rest : List ℕ = drop (x.begin - length history) bytes in
      let n : min x.count (length history + length bytes - x.begin) ≡ min x.count (length rest) =
        omega (arith, length-drop (x.begin - length history) bytes) in
      rw
        (
          leb-true (length history) x.begin late,
          sub64_lem (length history + length bytes) x.begin (omega arith) in_range,
          sub64_lem x.begin (length history) late (omega arith),
          n,
          load-some rest (min x.count (length rest)) (omega arith),
          ◌>>=◌,
          take-min-length x.count rest,
          drop-history,
        )
        (ap (λ k. some (result x.begin k, take x.count rest)) (sym (length-take x.count rest)))

module _ (H : PairingHeap) (malloc : ℕ → List ℕ) (b : OutputBuffer H) (bytes : List ℕ) where
  write-open : b.is_closed ≡ false → write H malloc b bytes ≡ or_fault (write_open H malloc b bytes)
  unfolding write
  write-open e =
      ap (λ c. if c then throws illegal_state else or_fault (write_open H malloc b bytes)) e

  write_open-some :
      {lost : ℕ} {r : Ring} {l : ReaderList H}
      → overwrite malloc b.ring bytes ≡ some (lost, r)
      → process H r.written_bytes (answer_from b.ring.written_bytes r.written_bytes bytes) b.readers
        ≡ some l
      → write_open H malloc b bytes ≡ some (record b { ring = r; readers = l })
  unfolding write_open
  write_open-some e e' = rw (e, ◌>>=◌, e') refl

  -- A closed buffer refuses every write.
  pub write_closed : b.is_closed ≡ true → write H malloc b bytes ≡ throws illegal_state
  unfolding write
  write_closed e =
      ap (λ c. if c then throws illegal_state else or_fault (write_open H malloc b bytes)) e

module _ (H : PairingHeap) (malloc : ℕ → List ℕ) where
  open H use {items}

  -- What `write` does to `b`, whose history was `history`, whatever its counters are.
  pub record Wrote (b b' : OutputBuffer H) (history bytes : List ℕ) : Type 0 where
    pub still_holds : Holds H b' (history ++ bytes)
    pub counts : Counts H b.readers → Counts H b'.readers
    pub still_open : b'.is_closed ≡ false
    pub same_max : b'.ring.max_capacity ≡ b.ring.max_capacity
    pub wakes :
        (x : ReadRequest)
        → Mem x (items b.readers.heap)
        → x.begin < length history + length bytes
        → (b.readers.requests x.id).cancelled ≡ false
        → (wake H b' x ≡ owed (history ++ bytes) x) × ((b'.readers.requests x.id).signalled ≡ true)
    pub keeps_others :
        (f : ReadRequest → ℕ)
        → weigh f (items b'.readers.heap)
          ≡ weigh (from (length history + length bytes) f) (items b.readers.heap)
    pub removes :
        (x : ReadRequest)
        → Mem x (items b.readers.heap)
        → x.begin < length history + length bytes
        → weigh (has_id x.id) (items b'.readers.heap) ≡ 0
    pub leaves :
        (k : ℕ)
        → weigh (reached (length history + length bytes) k) (items b.readers.heap) ≡ 0
        → b'.readers.requests k ≡ b.readers.requests k

  -- What `write` leaves of `b`, whose history was `history`.
  pub record Written (b b' : OutputBuffer H) (history bytes : List ℕ) : Type 0 where
    pub represents : Represents H b' (history ++ bytes)
    pub still_open : b'.is_closed ≡ false
    pub same_max : b'.ring.max_capacity ≡ b.ring.max_capacity
    pub wakes :
        (x : ReadRequest)
        → Mem x (items b.readers.heap)
        → x.begin < length history + length bytes
        → (b.readers.requests x.id).cancelled ≡ false
        → (wake H b' x ≡ owed (history ++ bytes) x) × ((b'.readers.requests x.id).signalled ≡ true)
    pub keeps_others :
        (f : ReadRequest → ℕ)
        → weigh f (items b'.readers.heap)
          ≡ weigh (from (length history + length bytes) f) (items b.readers.heap)
    pub removes :
        (x : ReadRequest)
        → Mem x (items b.readers.heap)
        → x.begin < length history + length bytes
        → weigh (has_id x.id) (items b'.readers.heap) ≡ 0
    pub leaves :
        (k : ℕ)
        → weigh (reached (length history + length bytes) k) (items b.readers.heap) ≡ 0
        → b'.readers.requests k ≡ b.readers.requests k

  module _ (alloc : Allocates malloc) {b : OutputBuffer H} {history : List ℕ} (bytes : List ℕ)
      (rep : Holds H b history) (in_range : length history + length bytes < 2 ^ 63) where
    ring_part :
        (r : Ring) × (overwrite malloc b.ring bytes
          ≡ some (b.ring.size + length bytes - b.ring.max_capacity, r))
        × Keeps r (history ++ bytes)
        × (r.max_capacity ≡ b.ring.max_capacity)
    ring_part =
        let k : Keeps b.ring history = rep.keeps in
        let (r, eq, o) =
          overwrite-Overwrote malloc alloc bytes k.valid (omega (arith, size-Keeps k, in_range))
            (omega (arith, k.written, in_range)) in
        (
          r,
          eq,
          record {
            valid = o.valid;
            last =
                o.last
                ∙ ap (λ l. take_last b.ring.max_capacity (l ++ bytes)) k.last
                ∙ take_last-append b.ring.max_capacity history bytes
                ∙ ap (λ m. take_last m (history ++ bytes)) (sym o.same_max);
            written = omega (arith, o.more_written, k.written, length-append history bytes);
            in_range = omega (arith, in_range, length-append history bytes);
          },
          o.same_max,
        )

    readers_part :
        (old new : ℕ)
        → old ≡ length history
        → new ≡ length history + length bytes
        → (l : ReaderList H) × (process H new (answer_from old new bytes) b.readers ≡ some l)
          × Processed H (length history + length bytes) (owed (history ++ bytes)) b.readers l
    readers_part old new e e' =
        rw (e, e')
          (process-Processed H (length history + length bytes)
            (answer_from (length history) (length history + length bytes) bytes)
            (owed (history ++ bytes)) b.readers
            (λ x m lt. answer_from-owed history bytes x (rep.late x m) lt (omega (arith, in_range)))
            rep.distinct)

    -- A write to an open buffer, whatever the counters of its readers are.
    pub write-Wrote :
        b.is_closed ≡ false
        → (b' : OutputBuffer H) × (write H malloc b bytes ≡ ok b') × Wrote b b' history bytes
    write-Wrote open_b =
        let (r, eq, k, m) = ring_part in
        let new : r.written_bytes ≡ length history + length bytes =
          omega (arith, k.written, length-append history bytes) in
        let old : Keeps b.ring history = rep.keeps in
        let (l, eq', p) = readers_part b.ring.written_bytes r.written_bytes old.written new in
        let total : length (history ++ bytes) ≡ length history + length bytes =
          length-append history bytes in
        (
          record b { ring = r; readers = l },
          write-open H malloc b bytes open_b
              ∙ ap or_fault (write_open-some H malloc b bytes eq eq'),
          record {
            counts = p.counts;
            still_holds = record {
              keeps = k;
              distinct = Processed-Distinct H p rep.distinct;
              late = λ x mem. omega (arith, Processed-late H p x mem, total);
            };
            still_open = open_b;
            same_max = m;
            wakes = λ x mem lt e.
                let now : l.requests x.id
                    ≡ answered (b.readers.requests x.id) (owed (history ++ bytes) x) =
                  p.answers x mem lt e in
                (unfold wake in ap (λ st. (st.result, st.target)) now, ap (λ st. st.signalled) now);
            keeps_others = p.keeps;
            removes = λ x mem lt. Processed-gone H p x rep.distinct mem lt;
            leaves = p.skips_others;
          },
        )

  -- On an open buffer that represents a history, with a malloc that allocates and fewer than
  -- 2 ^ 63 bytes in all, a write succeeds. The buffer then represents the longer history and is
  -- still open; every request that waits for bytes that are now there leaves the heap and, if
  -- it was not cancelled, is woken with exactly those bytes; the other requests are as they
  -- were.
  pub write-Written :
      Allocates malloc
      → {b : OutputBuffer H} {history : List ℕ} (bytes : List ℕ) → Represents H b history
      → length history + length bytes < 2 ^ 63
      → b.is_closed ≡ false
      → (b' : OutputBuffer H) × (write H malloc b bytes ≡ ok b') × Written b b' history bytes
  write-Written alloc bytes rep in_range open_b =
      let (b', eq, w) = write-Wrote alloc bytes (holds H rep) in_range open_b in
      (
        b',
        eq,
        record {
          represents = record {
            keeps = w.still_holds.keeps;
            counts = w.counts rep.counts;
            distinct = w.still_holds.distinct;
            late = w.still_holds.late;
          };
          still_open = w.still_open;
          same_max = w.same_max;
          wakes = w.wakes;
          keeps_others = w.keeps_others;
          removes = w.removes;
          leaves = w.leaves;
        },
      )
