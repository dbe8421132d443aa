-- ===== src/WebServer/Wakes.antt =====
-- A request to `OutputPollHandler` (src/WebServerFactory.cpp) that waits, and is woken by a write.
use Prim.Native.String.{String}
use mathlib.Core.Option
use mathlib.Core.List.{Mem, mem-cons}
use mathlib.Core.List.Perm
use mathlib.Core.Logic.Or
use ml_gridengine_executor.Base.{
  ℕ, ◌+◌, ◌^◌, ◌≤◌, ◌<◌, ◌≡◌, ◌⊎◌, inl, inr, refl, sym, ap, ◌∙◌, List, [], ◌++◌, true, false,
  Option, some, arith, ltb-false, length, take, drop, length-take, length-append, length-drop, ℤ,
  IsSsize,
}
use ml_gridengine_executor.Result.{ok}
use ml_gridengine_executor.Ring.Expand.{Allocates}
use ml_gridengine_executor.Heap.{PairingHeap, ReadRequest}
use ml_gridengine_executor.Readers.Weigh.{weigh, has_id}
use ml_gridengine_executor.OutputBuffer.{OutputBuffer, waits, read, enqueue, write, wake}
use ml_gridengine_executor.OutputBuffer.Spec.{piece, read_spec, Keeps, Represents}
use ml_gridengine_executor.OutputBuffer.Read.{position}
use ml_gridengine_executor.OutputBuffer.Wait.{request, read-Reads, enqueue-Represents}
use ml_gridengine_executor.OutputBuffer.Write.{owed, write-Written}
use ml_gridengine_executor.WebServer.{
  Query, content, parse_query, buffer_size, replied, waits_for, handle_poll, resume_poll,
  max_timeout,
}
use ml_gridengine_executor.WebServer.Poll.{Snapshots, piece-take, respond-piece}
use ml_gridengine_executor.WebServer.Session.{no_query, buffer_size-le, handle_poll-read}

module _ (H : PairingHeap) where
  open H use {items}

  -- A read past the history of an open buffer waits.
  read-waits :
      (b : OutputBuffer H) (history : List ℕ) (id : ℕ) (begin : ℤ) (count : ℕ)
      → Keeps b.ring history
      → IsSsize begin
      → b.is_closed ≡ false
      → length history ≤ position b.ring.written_bytes begin
      → read H b id begin count
        ≡ some (waits (request H b id begin count) (enqueue H b (request H b id begin count)))
  unfolding read_spec
  read-waits b history id begin count k range open_b late =
      read-Reads H b history id begin count k range
      ∙ rw (ltb-false (position b.ring.written_bytes begin) (length history) late, open_b) refl

  -- A request that has been added is in the heap and not cancelled.
  enqueued :
      (b : OutputBuffer H) (x : ReadRequest)
      → (Mem x (items (enqueue H b x).readers.heap))
        × (((enqueue H b x).readers.requests x.id).cancelled ≡ false)
        × ((enqueue H b x).is_closed ≡ b.is_closed)
  unfolding enqueue
  enqueued b x = (
    (Perm.mem_iff (H.items-push x b.readers.heap)).1 (mem-cons.1 (Or.inl refl)),
    ground arith,
    refl,
  )

  module _ (malloc : ℕ → List ℕ) where
    -- A write that reaches a request wakes it with what it is owed.
    write-wakes :
        (b : OutputBuffer H) (x : ReadRequest) (history bytes : List ℕ)
        → Allocates malloc
        → Represents H b history
        → b.is_closed ≡ false
        → weigh (has_id x.id) (items b.readers.heap) ≡ 0
        → b.readers.heap_size + 1 < 2 ^ 60
        → length history ≤ x.begin
        → x.begin < length history + length bytes
        → length history + length bytes < 2 ^ 63
        → (b' : OutputBuffer H) × (write H malloc (enqueue H b x) bytes ≡ ok b')
          × (wake H b' x ≡ owed (history ++ bytes) x)
          × ((b'.readers.requests x.id).signalled ≡ true)
    write-wakes b x history bytes alloc rep open_b fresh room late reached range =
        let (member, active, same) = enqueued b x in
        let (b', eq, w) =
          write-Written H malloc alloc {b = enqueue H b x} {history = history} bytes
            (enqueue-Represents H b history x rep late fresh room) range (same ∙ open_b) in
        let (answer, signalled) = w.wakes x member reached active in (b', eq, answer, signalled)

module _ (try_parse_64 : String → Option ℤ) (try_parse_unsigned : String → Option ℕ)
    (H : PairingHeap) (malloc : ℕ → List ℕ) (size : ℕ) where
  open H use {items}

  -- A request whose position is not reached waits on an open buffer, where there is room for one more
  -- reader with a new identity. A write that then reaches the position succeeds, if malloc allocates and
  -- fewer than 2^63 bytes are written in all, and signals it: with the answer left for it, it replies with one unbroken piece of the
  -- output from exactly that position on, not longer than asked for, though other writers come in
  -- between its further reads.
  pub handle_poll-woken :
      (parameters : List (String × String)) (b : OutputBuffer H) (id k : ℕ)
      (history bytes later : List ℕ) (turns : List (OutputBuffer H)) (q : Query)
      → parse_query try_parse_64 try_parse_unsigned max_timeout parameters no_query ≡ some q
      → IsSsize q.begin
      → q.count < 2 ^ 32
      → Allocates malloc
      → Represents H b history
      → b.is_closed ≡ false
      → weigh (has_id id) (items b.readers.heap) ≡ 0
      → b.readers.heap_size + 1 < 2 ^ 60
      → length history ≤ position b.ring.written_bytes q.begin
      → position b.ring.written_bytes q.begin < length history + length bytes
      → take k later ≡ history ++ bytes
      → length later < 2 ^ 63
      → Snapshots H later turns
      → (b' : OutputBuffer H) × (body : List ℕ) × (handle_poll try_parse_64 try_parse_unsigned H
            size parameters b id []
          ≡ some (
              waits_for q
                (request H b id q.begin (buffer_size size q.count))
                (enqueue H b (request H b id q.begin (buffer_size size q.count)))))
        × (write H malloc (enqueue H b (request H b id q.begin (buffer_size size q.count))) bytes
            ≡ ok b')
        × ((b'.readers.requests id).signalled ≡ true)
        × (resume_poll try_parse_64 try_parse_unsigned H size q
              (wake H b' (request H b id q.begin (buffer_size size q.count)))
              turns
            ≡ some (replied (content (position b.ring.written_bytes q.begin) body)))
        × (body ≡ piece later (position b.ring.written_bytes q.begin) (length body))
        × ((q.count ≡ 0) ⊎ (length body ≤ q.count))
  unfolding resume_poll
  handle_poll-woken parameters b id k history bytes later turns q e range small alloc rep open_b
        fresh room late reached pref long snaps =
      let n : ℕ = buffer_size size q.count in
      let x : ReadRequest = request H b id q.begin n in
      let total : length (take k later) ≡ length history + length bytes =
        ap length pref ∙ length-append history bytes in
      let (b', written, woken, signalled) =
        write-wakes H malloc b x history bytes alloc rep open_b fresh room late reached
          (omega (arith, total, length-take k later)) in
      let first : List ℕ = piece (take k later) x.begin n in
      let asked : (q.count ≡ 0) ⊎ (length first ≤ q.count) = elim (buffer_size-le size q.count) [
        | inl c ↦ inl c
        | inr c ↦ inr (omega (arith, length-take n (drop x.begin (take k later))))
      ] in
      let (body, e', e'', w) =
        respond-piece H q.count n x.begin later first turns long small snaps
          (omega (
            arith,
            total,
            length-take n (drop x.begin (take k later)),
            length-drop x.begin (take k later),
            length-take k later,
          ))
          (sym (piece-take k x.begin n later)) asked in
      (
        b',
        body,
        handle_poll-read try_parse_64 try_parse_unsigned H size parameters b id [] q
            (waits x (enqueue H b x)) e
            (read-waits H b history id q.begin n rep.keeps range open_b late),
        written,
        signalled,
        ap (λ answer. resume_poll try_parse_64 try_parse_unsigned H size q answer turns)
              (woken ∙ ap (λ l. owed l x) (sym pref))
            ∙ ap (Option.map (λ reply. replied reply)) e',
        e'',
        w,
      )
