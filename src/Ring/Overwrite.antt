-- ===== src/Ring/Overwrite.antt =====
-- `_overwrite` (src/OutputBuffer.cpp): the ring keeps the last bytes of what it held and what is
-- written, as many as the maximum capacity allows.
use ml_gridengine_executor.Base.{
  ℕ, ◌+◌, ◌-◌, ◌≤◌, ◌<◌, ◌≡◌, refl, ap, List, ◌++◌, Option, some, arith, min, ltb_cases, leb_cases,
  ltb-true, ltb-false, leb-true, leb-false, ◌∙◌, inl, inr, ◌>>=◌, length, drop, length-drop,
  add64_lem, sub64_lem, length-append, word, take_last,
}
use ml_gridengine_executor.Ring.{Ring, overwrite_within, overwrite}
use ml_gridengine_executor.Ring.Contents.{IsValid, contents, rem-wrap, length-contents}
use ml_gridengine_executor.Ring.Write.{written}
use ml_gridengine_executor.Ring.Expand.{Allocates, Expanded, expand_buffer-Expanded}
use ml_gridengine_executor.Ring.Appended.{
  dropped, appended, Overwrote, dropped-IsValid, contents-dropped, circular_write-fits,
  appended-Overwrote, take_last-lost, take_last-all_lost,
}

module _ {r : Ring} (bytes : List ℕ) (v : IsValid r) (no_wrap : r.size + length bytes < word)
    (no_wrap_written : r.written_bytes + length bytes < word) where
  abbrev lost : ℕ
  lost = r.size + length bytes - r.capacity

  abbrev Result : Type 0
  Result =
      (r' : Ring) × (overwrite_within r bytes ≡ some (lost, r')) × Overwrote r.capacity r r' bytes

  all_lost : r.capacity ≤ length bytes → Result
  unfolding overwrite_within appended written
  all_lost h =
      let tail : List ℕ = drop (length bytes - r.capacity) bytes in
      let fits : length tail ≤ r.capacity - 0 =
        omega (arith, length-drop (length bytes - r.capacity) bytes) in
      let q : Ring = record r { size = 0 } in
      let ok : IsValid q = omega arith in
      (
        appended tail ok fits (length bytes),
        rw
            (
              leb-true r.capacity (length bytes) h,
              sub64_lem (length bytes) r.capacity h (omega arith),
              circular_write-fits tail ok fits,
              ◌>>=◌,
              add64_lem r.size (length bytes - r.capacity) (omega arith),
              add64_lem r.written_bytes (length bytes) no_wrap_written,
            )
            (ap (λ k. some (k, appended tail ok fits (length bytes)))
              {x = r.size + (length bytes - r.capacity)} {y = lost} (omega arith)),
        appended-Overwrote tail ok fits r bytes (take_last-all_lost r.capacity (contents r) bytes h)
            refl refl,
      )

  some_lost : length bytes < r.capacity → r.capacity - length bytes < r.size → Result
  unfolding overwrite_within appended written
  some_lost h k =
      let le : lost ≤ r.size = omega arith in
      let ok : IsValid (dropped r lost) = dropped-IsValid lost v le in
      let fits : length bytes ≤ r.capacity - (r.size - lost) = omega arith in
      let e : r.size - (r.capacity - length bytes) ≡ lost = omega arith in
      (
        appended bytes ok fits (length bytes),
        rw
            (
              leb-false r.capacity (length bytes) h,
              sub64_lem r.capacity (length bytes) (omega arith) (omega arith),
              ltb-true (r.capacity - length bytes) r.size k,
              sub64_lem r.size (r.capacity - length bytes) (omega arith) (omega arith),
              e,
              add64_lem r.head lost (omega arith),
              rem-wrap r.capacity (r.head + lost) (omega arith),
              ◌>>=◌,
            )
            (rw
              (
                sub64_lem r.size lost le (omega arith),
                circular_write-fits bytes ok fits,
                ◌>>=◌,
                add64_lem r.written_bytes (length bytes) no_wrap_written,
              )
              refl),
        appended-Overwrote bytes ok fits r bytes
            (ap (λ l. l ++ bytes) (contents-dropped lost v le)
              ∙ take_last-lost r.capacity lost (contents r) bytes (omega (arith, length-contents v))
                  (omega (arith, length-contents v)))
            refl refl,
      )

  none_lost : length bytes < r.capacity → r.size ≤ r.capacity - length bytes → Result
  unfolding overwrite_within appended written
  none_lost h k =
      let fits : length bytes ≤ r.capacity - r.size = omega arith in
      (
        appended bytes v fits (length bytes),
        rw
            (
              leb-false r.capacity (length bytes) h,
              sub64_lem r.capacity (length bytes) (omega arith) (omega arith),
              ltb-false (r.capacity - length bytes) r.size k,
              circular_write-fits bytes v fits,
              ◌>>=◌,
              add64_lem r.written_bytes (length bytes) no_wrap_written,
            )
            (ap (λ k. some (k, appended bytes v fits (length bytes))) {x = 0} {y = lost}
              (omega arith)),
        appended-Overwrote bytes v fits r bytes
            (take_last-lost r.capacity 0 (contents r) bytes (omega (arith, length-contents v))
              (omega arith))
            refl refl,
      )

  -- All three branches of `_overwrite`, once the ring's capacity is settled.
  overwrite_within-Overwrote : Result
  overwrite_within-Overwrote = elim (leb_cases r.capacity (length bytes)) [
    | inl (e, le) ↦ all_lost le
    | inr (e, gt) ↦ elim (ltb_cases (r.capacity - length bytes) r.size) [
      | inl (e', lt) ↦ some_lost gt lt
      | inr (e', ge) ↦ none_lost gt ge
    ]
  ]

take_last-enough :
    (c m : ℕ) (xs : List ℕ) → c ≤ m → min (length xs) m ≤ c → take_last c xs ≡ take_last m xs
take_last-enough c m xs h k =
    ap (λ n. drop n xs) {x = length xs - c} {y = length xs - m} (omega arith)

module _ (malloc : ℕ → List ℕ) (alloc : Allocates malloc) {r : Ring} (bytes : List ℕ)
    (v : IsValid r) (no_wrap : r.size + length bytes < word)
    (no_wrap_written : r.written_bytes + length bytes < word) where
  abbrev Overwrites : Option Ring → Type 0
  Overwrites q =
      (r' : Ring) × ((q >>= λ q'. overwrite_within q' bytes)
        ≡ some (r.size + length bytes - r.max_capacity, r'))
      × Overwrote r.max_capacity r r' bytes

  overwrite-Expanded : (q : Ring) → Expanded r q (r.size + length bytes) → Overwrites (some q)
  overwrite-Expanded q x =
      let (r', eq, done) =
        overwrite_within-Overwrote bytes x.valid (omega (arith, x.same_size, no_wrap))
          (omega (arith, x.same_written, no_wrap_written)) in
      let len : length (contents r ++ bytes) ≡ r.size + length bytes =
        omega (arith, length-append (contents r) bytes, length-contents v) in
      let ok : IsValid q = x.valid in
      (
        r',
        eq
            ∙ ap (λ k. some (k, r')) {x = q.size + length bytes - q.capacity}
                {y = r.size + length bytes - r.max_capacity}
                (omega (arith, x.same_size, x.room, x.same_max, ok.bounded)),
        record {
          valid = done.valid;
          last =
              done.last
              ∙ ap (λ l. take_last q.capacity (l ++ bytes)) x.same
              ∙ take_last-enough q.capacity r.max_capacity (contents r ++ bytes)
                  (omega (arith, x.same_max, ok.bounded)) (omega (arith, x.room, len));
          same_max = done.same_max ∙ x.same_max;
          more_written = done.more_written ∙ ap (λ k. k + length bytes) x.same_written;
        },
      )

  kept-Expanded :
      min (r.size + length bytes) r.max_capacity ≤ r.capacity → Expanded r r (r.size + length bytes)
  kept-Expanded h = record {
    valid = v;
    same = refl;
    same_size = refl;
    room = h;
    same_max = refl;
    same_written = refl;
  }

  -- On a valid ring, with a malloc that allocates and sums below 2 ^ 64, `_overwrite` does not
  -- fault. It leaves a valid ring with the last `_maxCapacity` bytes of what was held and what is
  -- written, counts the new bytes as written, and returns how many bytes no longer fit.
  pub overwrite-Overwrote :
      (r' : Ring) × (overwrite malloc r bytes ≡ some (r.size + length bytes - r.max_capacity, r'))
      × Overwrote r.max_capacity r r' bytes
  unfolding overwrite
  overwrite-Overwrote =
      rw (add64_lem r.size (length bytes) no_wrap)
        (elim (ltb_cases r.capacity (r.size + length bytes)) [
          | inr (e, ge) ↦ rw e (overwrite-Expanded r (kept-Expanded (omega arith)))
          | inl (e, lt) ↦ elim (ltb_cases r.capacity r.max_capacity) [
            | inr (e', ge) ↦ rw (e, e') (overwrite-Expanded r (kept-Expanded (omega arith)))
            | inl (e', lt') ↦
                let (q, eq, x) = expand_buffer-Expanded malloc (r.size + length bytes) alloc v in
                rw (e, e') (rw eq (overwrite-Expanded q x))
          ]
        ])
