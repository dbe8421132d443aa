-- ===== src/IoController/Pipeline.antt =====
-- The thread that collects the output of the program (src/IOController.cpp) among the readers of the
-- buffer, and the `close` that runApp (src/main.cpp) calls when that thread has ended.
use mathlib.Core.List.{append-nil, append_assoc}
use ml_gridengine_executor.Base.{
  ℕ, ◌+◌, ◌^◌, ◌≤◌, ◌<◌, ◌≡◌, ◌⊎◌, refl, ap, sym, subst, ◌∙◌, List, [], ◌∷◌, ◌++◌, true, false,
  Option, none, some, arith, length, length-append, take,
}
use ml_gridengine_executor.Result.{ok}
use ml_gridengine_executor.ReadResult.{closed}
use ml_gridengine_executor.Ring.Expand.{Allocates}
use ml_gridengine_executor.Heap.{ReadRequest, PairingHeap}
use ml_gridengine_executor.OutputBuffer.{OutputBuffer, close, wake}
use ml_gridengine_executor.OutputBuffer.Write.{owed, write-Wrote}
use ml_gridengine_executor.OutputBuffer.System.{System, Reach, here, next, writes, closes, initial}
use ml_gridengine_executor.OutputBuffer.System.Invariant.{IsSound}
use ml_gridengine_executor.OutputBuffer.System.Safety.{
  Reach-IsSound, initial-IsSound, close_ends_waits, woken_answers,
}
use ml_gridengine_executor.IoController.{run}
use ml_gridengine_executor.IoController.Run.{received}

module _ (H : PairingHeap) (malloc : ℕ → List ℕ) (alloc : Allocates malloc) where
  -- The state when the buffer is `b` and holds `bytes` more.
  abbrev pub filled : System H malloc → OutputBuffer H → List ℕ → System H malloc
  filled s b bytes = record s { buffer = b; history = s.history ++ bytes }

  -- The loop alone is a path of writes.
  abbrev Collected : System H malloc → System H malloc → List (Option (List ℕ)) → Type 0
  Collected start s reads =
      (b : OutputBuffer H) × (run H malloc reads s.buffer ≡ ok b)
      × Reach H malloc start (filled s b (received reads))

  stopped :
      (start s : System H malloc) (reads : List (Option (List ℕ)))
      → Reach H malloc start s
      → run H malloc reads s.buffer ≡ ok s.buffer
      → received reads ≡ []
      → Collected start s reads
  stopped start s reads r e none_left = (
    s.buffer,
    e,
    subst (λ l. Reach H malloc start (record s { history = l }))
        (sym (ap (λ l. s.history ++ l) none_left ∙ append-nil s.history)) r,
  )

  run-Reach :
      (start s : System H malloc) (reads : List (Option (List ℕ)))
      → Reach H malloc start s
      → IsSound H malloc s
      → s.buffer.is_closed ≡ false
      → length s.history + length (received reads) < 2 ^ 63
      → Collected start s reads
  unfolding run
  run-Reach start s [] r sound o h = stopped start s [] r refl refl
  run-Reach start s (none ∷ reads) r sound o h = stopped start s (none ∷ reads) r refl refl
  run-Reach start s (some [] ∷ reads) r sound o h = stopped start s (some [] ∷ reads) r refl refl
  run-Reach start s (some (x ∷ xs) ∷ reads) r sound o h =
      let more : length ((x ∷ xs) ++ received reads) ≡ length (x ∷ xs) + length (received reads) =
        length-append (x ∷ xs) (received reads) in
      let short : length s.history + length (x ∷ xs) < 2 ^ 63 = omega (arith, h, more) in
      let (b₁, eq, w) = write-Wrote H malloc alloc (x ∷ xs) sound.still_holds short o in
      let step = writes (x ∷ xs) b₁ short eq in
      let (b₂, eq', r') =
        run-Reach start (filled s b₁ (x ∷ xs)) reads (next r step)
          (Reach-IsSound H malloc alloc (next here step) sound) w.still_open
          (omega (arith, h, more, length-append s.history (x ∷ xs))) in
      (
        b₂,
        rw (eq, run) eq',
        subst (λ l. Reach H malloc start (record s { buffer = b₂; history = l }))
            (append_assoc s.history (x ∷ xs) (received reads)) r',
      )

  -- With a malloc that allocates, a maximum capacity from 1 to 2^63, an initial capacity of at
  -- least 1 and fewer than 2^63 bytes written: from every state that a new buffer, its writer and
  -- its readers reach while it is open, other calls having timed out before or after their answers,
  -- the loop of the IO thread, for any list of what its reads give, and the `close` after it come
  -- to their end without a fault or an exception. The buffer has then taken in all that was read,
  -- and each reader that waits has been signalled, with exactly what it is owed of the bytes that
  -- had been written up to some write as its answer, or with Closed if its position is past the
  -- end of the output.
  pub output_ends :
      (size initial_size : ℕ)
      → 1 ≤ size
      → size ≤ 2 ^ 63
      → 1 ≤ initial_size
      → {s : System H malloc} (reads : List (Option (List ℕ)))
      → Reach H malloc (initial H malloc size initial_size) s
      → s.buffer.is_closed ≡ false
      → length s.history + length (received reads) < 2 ^ 63
      → (b b' : OutputBuffer H) × (run H malloc reads s.buffer ≡ ok b)
        × (close H b ≡ some b')
        × Reach H malloc (initial H malloc size initial_size) (filled s b' (received reads))
        × ((x : ReadRequest)
            → s.calls x.id ≡ some x
            → ((b'.readers.requests x.id).signalled ≡ true)
              × (((n : ℕ) × (x.begin < n)
                    × (n ≤ length (s.history ++ received reads))
                    × (wake H b' x ≡ owed (take n (s.history ++ received reads)) x))
                  ⊎ (((wake H b' x).0 ≡ closed)
                      × (b'.is_closed ≡ true)
                      × (length (s.history ++ received reads) ≤ x.begin))))
  output_ends size initial_size pos small pos' {s} reads r o h =
      let start : System H malloc = initial H malloc size initial_size in
      let sound =
        Reach-IsSound H malloc alloc r
          (initial-IsSound H malloc size initial_size alloc pos small pos') in
      let (b, e, r') = run-Reach start s reads r sound o h in
      let (b', e', told) = close_ends_waits H malloc size initial_size alloc pos small pos' r' in
      let last : Reach H malloc start (filled s b' (received reads)) = next r' (closes b' e') in
      (
        b,
        b',
        e,
        e',
        last,
        λ x called. (
          told x called,
          woken_answers H malloc size initial_size alloc pos small pos' last x called
              (told x called),
        ),
      )
