-- ===== src/WebServer/Session.antt =====
-- A whole request to `OutputPollHandler` (src/WebServerFactory.cpp), over what OutputBuffer promises.
use Prim.Native.String.{String}
use mathlib.Core.Option
use ml_gridengine_executor.Base.{
  ℕ, ◌+◌, ◌-◌, ◌^◌, ◌≤◌, ◌<◌, ◌≡◌, ◌⊎◌, inl, inr, refl, sym, ap, ◌∙◌, List, true, false, Option,
  some, arith, max, ltb_cases, Bool-cases, ◌>>=◌, length, take, drop, length-take, length-drop, ℤ,
  pos, IsSsize,
}
use ml_gridengine_executor.Heap.{PairingHeap}
use ml_gridengine_executor.OutputBuffer.{OutputBuffer, Reading, returns, waits, read, enqueue}
use ml_gridengine_executor.OutputBuffer.Spec.{piece, read_spec, Keeps}
use ml_gridengine_executor.OutputBuffer.Read.{position}
use ml_gridengine_executor.OutputBuffer.Wait.{request, Reads, read-Reads}
use ml_gridengine_executor.WebServer.{
  Query, gone, content, parse_query, buffer_size, respond, replied, waits_for, handle_poll,
  max_timeout, default_timeout,
}
use ml_gridengine_executor.WebServer.Poll.{Snapshots, piece-take, respond-piece}

-- What is asked for when no parameter is given.
abbrev pub no_query : Query
no_query = record { begin = pos 0; timeout = default_timeout; count = 0 }

pub buffer_size-le : (size count : ℕ) → (count ≡ 0) ⊎ (buffer_size size count ≤ count)
unfolding buffer_size
buffer_size-le size count = ground arith

module _ (try_parse_64 : String → Option ℤ) (try_parse_unsigned : String → Option ℕ)
    (H : PairingHeap) (size : ℕ) where
  pub handle_poll-read :
      (parameters : List (String × String)) (b : OutputBuffer H) (id : ℕ)
      (turns : List (OutputBuffer H)) (q : Query) (reading : Reading H)
      → parse_query try_parse_64 try_parse_unsigned max_timeout parameters no_query ≡ some q
      → read H b id q.begin (buffer_size size q.count) ≡ some reading
      → handle_poll try_parse_64 try_parse_unsigned H size parameters b id turns ≡ (elim reading [
        | returns r bytes ↦
            Option.map
              (λ reply. replied reply)
              (respond H q.count (buffer_size size q.count) (r, bytes) turns)
        | waits x b' ↦ some (waits_for q x b')
      ])
  unfolding handle_poll
  handle_poll-read parameters b id turns q reading e e' = rw (handle_poll, e, e', ◌>>=◌) refl

  -- The position from which a request is answered: that asked for, or the oldest byte that is kept.
  abbrev pub answered_from : OutputBuffer H → ℕ → Query → ℕ
  answered_from b written q =
      max (position b.ring.written_bytes q.begin) (written - b.ring.max_capacity)

  -- A request, with parameters that are parsed to a position in the range of `ssize_t` and a count below
  -- 2^32, finds the buffer keeping some beginning of a history of fewer than 2^63 bytes; so does each
  -- later turn of its loop, while writers come in between. If its position is reached it is answered
  -- with one unbroken piece of the history, from that position on, or from the oldest byte that is kept
  -- if that is later, and not longer than asked for (0 asks for all). Otherwise it is answered Gone if the
  -- buffer is closed, and waits if it is open.
  pub handle_poll-pieces :
      (parameters : List (String × String)) (b : OutputBuffer H) (id k : ℕ) (history : List ℕ)
      (turns : List (OutputBuffer H)) (q : Query)
      → parse_query try_parse_64 try_parse_unsigned max_timeout parameters no_query ≡ some q
      → IsSsize q.begin
      → q.count < 2 ^ 32
      → length history < 2 ^ 63
      → Keeps b.ring (take k history)
      → Snapshots H history turns
      → ((body : List ℕ) × (position b.ring.written_bytes q.begin < length (take k history))
          × (handle_poll try_parse_64 try_parse_unsigned H size parameters b id turns
              ≡ some (replied (content (answered_from b (length (take k history)) q) body)))
          × (body ≡ piece history (answered_from b (length (take k history)) q) (length body))
          × ((q.count ≡ 0) ⊎ (length body ≤ q.count)))
        ⊎ (((length (take k history) ≤ position b.ring.written_bytes q.begin)
              × (b.is_closed ≡ true)
              × (handle_poll try_parse_64 try_parse_unsigned H size parameters b id turns
                  ≡ some (replied gone)))
            ⊎ ((length (take k history) ≤ position b.ring.written_bytes q.begin)
                × (b.is_closed ≡ false)
                × (handle_poll try_parse_64 try_parse_unsigned H size parameters b id turns
                    ≡ some (
                        waits_for q
                          (request H b id q.begin (buffer_size size q.count))
                          (enqueue H b (request H b id q.begin (buffer_size size q.count)))))))
  unfolding read_spec respond
  handle_poll-pieces parameters b id k history turns q e range small long keeps snaps =
      let here : List ℕ = take k history in
      let p : ℕ = position b.ring.written_bytes q.begin in
      let n : ℕ = buffer_size size q.count in
      let first : ℕ = max p (length here - b.ring.max_capacity) in
      let bytes : List ℕ = piece here first n in
      let eq =
        handle_poll-read parameters b id turns q (Reads H b here (request H b id q.begin n)) e
          (read-Reads H b here id q.begin n keeps range) in
      elim (ltb_cases p (length here)) [
        | inl (t, lt) ↦
            let fits : first + length bytes ≤ length history = omega (
              arith,
              lt,
              keeps.valid.positive,
              keeps.valid.bounded,
              length-take n (drop first here),
              length-drop first here,
              length-take k history,
            ) in
            let asked : (q.count ≡ 0) ⊎ (length bytes ≤ q.count) =
              elim (buffer_size-le size q.count) [
                | inl c ↦ inl c
                | inr c ↦ inr (omega (arith, length-take n (drop first here)))
              ] in
            let (body, e', e'', w) =
              respond-piece H q.count n first history bytes turns long small snaps fits
                (sym (piece-take k first n history)) asked in
            inl (body, lt, eq ∙ rw t (ap (Option.map (λ reply. replied reply)) e'), e'', w)
        | inr (t, ge) ↦ elim (Bool-cases b.is_closed) [
          | inl c ↦ inr (inl (ge, c, eq ∙ rw (t, c) refl))
          | inr c ↦ inr (inr (ge, c, eq ∙ rw (t, c) refl))
        ]
      ]
