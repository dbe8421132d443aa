-- ===== src/WebServer/Poll.antt =====
-- What `OutputPollHandler` (src/WebServerFactory.cpp) sends: one unbroken piece of the output, though
-- other threads write to the buffer between its reads.
use mathlib.Core.Option
use ml_gridengine_executor.Base.{
  ℕ, zero, suc, ◌+◌, ◌-◌, ◌^◌, ◌≤◌, ◌<◌, ◌≡◌, ◌⊎◌, inl, inr, refl, sym, ap, ◌∙◌, List, [], ◌∷◌,
  ◌++◌, Bool, true, false, not, ◌&&◌, ◌||◌, Option, some, arith, min, max, ltb, ltb_cases, ◌==◌,
  ==_iff, if◌then◌else◌, Bool-cases, ◌>>=◌, length, take, drop, length-append, length-take,
  length-drop, take-add, drop-drop, drop-take, of_word_small, add64, add64_lem, sub64, sub64_lem,
  pos, of_word,
}
use ml_gridengine_executor.ReadResult.{ReadResult, result}
use ml_gridengine_executor.Heap.{PairingHeap}
use ml_gridengine_executor.OutputBuffer.{OutputBuffer, try_read, try_read_at}
use ml_gridengine_executor.OutputBuffer.Spec.{piece, read_spec, Keeps}
use ml_gridengine_executor.OutputBuffer.Read.{translate_negative_begin-position, try_read-read_spec}
use ml_gridengine_executor.WebServer.{send_loop, respond, content}

take-take-take :
    (n m : ℕ) (xs : List ℕ) → take (length (take n (take m xs))) xs ≡ take n (take m xs)
take-take-take zero m xs = refl
take-take-take (suc n) zero xs = refl
take-take-take (suc n) (suc m) [] = refl
take-take-take (suc n) (suc m) (x ∷ xs) = ap (λ l. x ∷ l) (take-take-take n m xs)

-- What is read from a beginning of the history is a piece of the history.
pub piece-take :
    (k begin n : ℕ) (history : List ℕ)
    → piece history begin (length (piece (take k history) begin n)) ≡ piece (take k history) begin n
piece-take k begin n history =
    rw (drop-take begin k history) (take-take-take n (k - begin) (drop begin history))

-- The test after each read of the loop.
abbrev stops : ℕ → ReadResult → Bool
stops begin r = r.is_timeout || (r.is_closed || not (begin == r.begin))

-- What a read that does not stop the loop has given.
read_spec-goes_on :
    (c : Bool) (cap : ℕ) (history : List ℕ) (begin n : ℕ)
    → stops begin (read_spec c cap history begin n).0 ≡ false
    → ((read_spec c cap history begin n).0.begin ≡ begin)
      × ((read_spec c cap history begin n).0.count ≡ length (read_spec c cap history begin n).1)
      × ((read_spec c cap history begin n).1 ≡ piece history begin n)
unfolding read_spec
read_spec-goes_on c cap history begin n s = elim (ltb_cases begin (length history)) [
  | inl (t, lt) ↦
      let same : max begin (length history - cap) ≡ begin =
        ground (arith, s, t, ==_iff begin (max begin (length history - cap))) in
      rw t (same, refl, ap (λ m. piece history m n) same)
  | inr (t, ge) ↦ absurd (ground (arith, s, t))
]

module _ (H : PairingHeap) where
  -- Buffers that each keep a beginning of one history.
  abbrev pub Snapshots : List ℕ → List (OutputBuffer H) → Type 0
  Snapshots history [] = Unit
  Snapshots history (b ∷ turns) = (k : ℕ) × Keeps b.ring (take k history) × Snapshots history turns

  -- A read at a position that a signed number can hold.
  try_read_at-spec :
      (b : OutputBuffer H) (history : List ℕ) (begin count : ℕ)
      → Keeps b.ring history
      → begin < 2 ^ 63
      → try_read_at H b (of_word begin) count
        ≡ some (read_spec b.is_closed b.ring.max_capacity history begin count)
  unfolding try_read_at
  try_read_at-spec b history begin count k h =
      ap (λ z. try_read_at H b z count) (of_word_small begin h)
      ∙ ap (λ p. try_read H b p count)
          (translate_negative_begin-position b.ring.written_bytes (pos begin)
            (omega (arith, k.written, k.in_range)) h)
      ∙ try_read-read_spec H b history begin count k

  -- What the loop sends is the next piece of the history, and not more than was asked for.
  abbrev Sends : ℕ → List ℕ → ℕ → ℕ → Option (List ℕ) → Type 0
  Sends count history begin written o =
      (body : List ℕ) × (o ≡ some body)
      × (body ≡ piece history begin (length body))
      × ((count ≡ 0) ⊎ (written + length body ≤ count))

  module _ (count size : ℕ) (b : OutputBuffer H) (turns : List (OutputBuffer H))
      (begin written : ℕ) where
    abbrev asks : ℕ
    asks = if ltb 0 count then min (sub64 count written) size else size

    asks-le :
        (m : ℕ)
        → (count ≡ 0) ⊎ (written ≤ count)
        → count < 2 ^ 32
        → m ≤ asks
        → (ltb 0 count && not (ltb written count)) ≡ false
        → (count ≡ 0) ⊎ (written + m ≤ count)
    asks-le m w small le c = ground (arith, w, sub64_lem count written, c)

    turn_enough :
        (ltb 0 count && not (ltb written count)) ≡ true
        → send_loop H count size (b ∷ turns) begin written ≡ some []
    unfolding send_loop
    turn_enough c = rw c refl

    turn_stops :
        (r : ReadResult) (bytes : List ℕ)
        → (ltb 0 count && not (ltb written count)) ≡ false
        → try_read_at H b (of_word begin) asks ≡ some (r, bytes)
        → stops begin r ≡ true
        → send_loop H count size (b ∷ turns) begin written ≡ some []
    unfolding send_loop
    turn_stops r bytes c eq s = rw (c, eq, ◌>>=◌, s) refl

    turn_goes_on :
        (r : ReadResult) (bytes : List ℕ)
        → (ltb 0 count && not (ltb written count)) ≡ false
        → try_read_at H b (of_word begin) asks ≡ some (r, bytes)
        → stops begin r ≡ false
        → send_loop H count size (b ∷ turns) begin written
          ≡ Option.map
              (λ more. bytes ++ more)
              (send_loop H count size turns (add64 r.begin r.count) (add64 written r.count))
    unfolding send_loop
    turn_goes_on r bytes c eq s = rw (c, eq, ◌>>=◌, s) refl

  Sends-nothing :
      {o : Option (List ℕ)} (count : ℕ) (history : List ℕ) (begin written : ℕ)
      → (count ≡ 0) ⊎ (written ≤ count)
      → o ≡ some []
      → Sends count history begin written o
  Sends-nothing count history begin written w e = ([], e, refl, ground (arith, w))

  Sends-more :
      {o o' : Option (List ℕ)} (count : ℕ) (history bytes : List ℕ) (begin written : ℕ)
      → bytes ≡ piece history begin (length bytes)
      → o ≡ Option.map (λ more. bytes ++ more) o'
      → Sends count history (begin + length bytes) (written + length bytes) o'
      → Sends count history begin written o
  Sends-more count history bytes begin written e eq (more, eq', e', w) =
      let total : length (bytes ++ more) ≡ length bytes + length more = length-append bytes more in
      (
        bytes ++ more,
        eq ∙ ap (Option.map (λ l. bytes ++ l)) eq',
        ap (λ l. l ++ more) e
            ∙ ap (λ l. piece history begin (length bytes) ++ l)
                (e' ∙ ap (take (length more)) (sym (drop-drop (length bytes) begin history)))
            ∙ take-add (length bytes) (length more) (drop begin history)
            ∙ ap (λ n. piece history begin n) (sym total),
        ground (arith, w, total),
      )

  -- The loop sends a piece of the history, and with the bytes sent before not more than `count`.
  send_loop-Sends :
      (count size : ℕ) (history : List ℕ) (turns : List (OutputBuffer H)) (begin written : ℕ)
      → length history < 2 ^ 63
      → count < 2 ^ 32
      → Snapshots history turns
      → begin ≤ length history
      → written ≤ begin
      → (count ≡ 0) ⊎ (written ≤ count)
      → Sends count history begin written (send_loop H count size turns begin written)
  unfolding send_loop
  send_loop-Sends count size history [] begin written range small snaps h v w =
      Sends-nothing count history begin written w refl
  send_loop-Sends count size history (b ∷ turns) begin written range small (k, keeps, snaps) h v w =
      elim (Bool-cases (ltb 0 count && not (ltb written count))) [
        | inl c ↦
            Sends-nothing count history begin written w
              (turn_enough count size b turns begin written c)
        | inr c ↦
            let n : ℕ = asks count size b turns begin written in
            let rs : ReadResult × List ℕ =
              read_spec b.is_closed b.ring.max_capacity (take k history) begin n in
            let eq = try_read_at-spec b (take k history) begin n keeps (omega arith) in
            elim (Bool-cases (stops begin rs.0)) [
              | inl s ↦
                  Sends-nothing count history begin written w
                    (turn_stops count size b turns begin written rs.0 rs.1 c eq s)
              | inr s ↦
                  let (same, len, bytes) =
                    read_spec-goes_on b.is_closed b.ring.max_capacity (take k history) begin n s in
                  let fits : length rs.1 ≤ length history - begin = omega (
                    arith,
                    ap length bytes,
                    length-take n (drop begin (take k history)),
                    length-drop begin (take k history),
                    length-take k history,
                  ) in
                  let asked : (count ≡ 0) ⊎ (written + length rs.1 ≤ count) =
                    asks-le count size b turns begin written (length rs.1) w small
                      (omega (arith, ap length bytes, length-take n (drop begin (take k history))))
                      c in
                  let to : add64 rs.0.begin rs.0.count ≡ begin + length rs.1 =
                    omega (arith, add64_lem rs.0.begin rs.0.count, same, len) in
                  let sent : add64 written rs.0.count ≡ written + length rs.1 =
                    omega (arith, add64_lem written rs.0.count, len) in
                  Sends-more count history rs.1 begin written
                    (bytes
                      ∙ sym (piece-take k begin n history)
                      ∙ ap (λ l. piece history begin (length l)) (sym bytes))
                    (turn_goes_on count size b turns begin written rs.0 rs.1 c eq s
                      ∙ ap
                          (λ i.
                            Option.map (λ more. rs.1 ++ more)
                              (send_loop H count size turns i (add64 written rs.0.count)))
                          to
                      ∙ ap
                          (λ j.
                            Option.map (λ more. rs.1 ++ more)
                              (send_loop H count size turns (begin + length rs.1) j))
                          sent)
                    (send_loop-Sends count size history turns (begin + length rs.1)
                      (written + length rs.1) range small snaps (omega arith) (omega arith) asked)
            ]
      ]

  -- A first read has returned a piece of a history of fewer than 2 ^ 63 bytes, not longer than
  -- the count asked for, which is below 2 ^ 32 (0 asks for all), and each later turn finds the
  -- buffer keeping some beginning of that history. What the handler sends is then one piece of
  -- the history, from the position that it names, and not longer than was asked for.
  pub respond-piece :
      (count size first : ℕ) (history bytes : List ℕ) (turns : List (OutputBuffer H))
      → length history < 2 ^ 63
      → count < 2 ^ 32
      → Snapshots history turns
      → first + length bytes ≤ length history
      → bytes ≡ piece history first (length bytes)
      → (count ≡ 0) ⊎ (length bytes ≤ count)
      → (body : List ℕ) × (respond H count size (result first (length bytes), bytes) turns
          ≡ some (content first body))
        × (body ≡ piece history first (length body))
        × ((count ≡ 0) ⊎ (length body ≤ count))
  unfolding respond
  respond-piece count size first history bytes turns range small snaps h e w =
      let to : add64 first (length bytes) ≡ first + length bytes =
        omega (arith, add64_lem first (length bytes)) in
      let (more, eq, e', w') =
        send_loop-Sends count size history turns (first + length bytes) (length bytes) range small
          snaps h (omega arith) w in
      let (body, eq', e'', w'') =
        Sends-more count history bytes first 0 e refl (more, refl, e', ground (arith, w')) in
      (
        body,
        ap
              (λ i.
                Option.map (λ l. content first (bytes ++ l))
                  (send_loop H count size turns i (length bytes)))
              to
            ∙ ap (Option.map (λ l. content first (bytes ++ l))) eq
            ∙ ap (Option.map (content first)) eq',
        e'',
        ground (arith, w''),
      )
