-- ===== src/Ring/Read.antt =====
-- `_circularRead` (src/OutputBuffer.cpp): it copies a piece of what the ring holds.
use ml_gridengine_executor.Base.{
  ℕ, ◌+◌, ◌-◌, ◌≤◌, ◌<◌, ◌≡◌, refl, sym, ap, List, ◌++◌, none, some, arith, min, ltb, leb,
  ltb_cases, leb_cases, ◌∙◌, inl, inr, if◌then◌else◌, ◌>>=◌, length, get_elem?, take, drop,
  length-take, length-drop, get_elem?-take, get_elem?-drop, get_elem?-append, list_ext, add64_lem,
  sub64_lem, word, drop_all, take-nil,
}
use ml_gridengine_executor.Memory.{load-some}
use ml_gridengine_executor.Ring.{Ring, copy_out, circular_read}
use ml_gridengine_executor.Ring.Contents.{
  IsValid, contents, wrap, rem-wrap, length-contents, get_elem?-contents,
}

-- The `n` bytes from index `front` on, going round the end.
cut : List ℕ → ℕ → ℕ → ℕ → List ℕ
cut buf cap front n =
    if leb n (cap - front)
    then take n (drop front buf)
    else take (cap - front) (drop front buf) ++ take (n - (cap - front)) buf

module _ (buf : List ℕ) (cap front n : ℕ) (allocated : cap ≤ length buf) (front_in : front < cap)
    (fits : n ≤ cap) where
  copy_out-cut : n < word → copy_out buf front (cap - front) n ≡ some (cut buf cap front n)
  unfolding copy_out cut
  copy_out-cut w = elim (leb_cases n (cap - front)) [
    | inl (e, le) ↦ rw e (load-some (drop front buf) n (omega (arith, length-drop front buf)))
    | inr (e, gt) ↦
        rw
          (
            e,
            sub64_lem n (cap - front) (omega arith) w,
            load-some (drop front buf) (cap - front) (omega (arith, length-drop front buf)),
            load-some buf (n - (cap - front)) (omega arith),
          )
          refl
  ]

  get_elem?-cut :
      (i : ℕ)
      → get_elem? (cut buf cap front n) i
        ≡ (if ltb i n then get_elem? buf (wrap cap (front + i)) else none)
  unfolding cut
  get_elem?-cut i = elim (leb_cases n (cap - front)) [
    | inl (e, le) ↦ rw (e, get_elem?-take, get_elem?-drop) (ground arith)
    | inr (e, gt) ↦
        rw
          (
            e,
            get_elem?-append (take (cap - front) (drop front buf)) (take (n - (cap - front)) buf) i,
            get_elem?-take (cap - front) (drop front buf) i,
            get_elem?-take (n - (cap - front)) buf,
            get_elem?-drop,
            length-take,
            length-drop,
          )
          (ground (
            arith,
            ap (get_elem? buf) {x = i - min (cap - front) (length buf - front)}
                {y = front + i - cap},
          ))
  ]

-- On a valid ring `_circularRead` does not fault, and copies at most `count` of the bytes held
-- from `start` on.
pub circular_read-contents :
    {r : Ring} (count start : ℕ)
    → IsValid r
    → circular_read r count start ≡ some (take count (drop start (contents r)))
unfolding circular_read
circular_read-contents {r} count start v = elim (ltb_cases start r.size) [
  | inr (e, ge) ↦ rw e (
      ap some (
        sym (
          ap (take count) (drop_all start (contents r) (omega (arith, length-contents v)))
          ∙ take-nil count)))
  | inl (e, lt) ↦
      let n : ℕ = min count (r.size - start) in
      let front : ℕ = wrap r.capacity (r.head + start) in
      let front_in : front < r.capacity = ground arith in
      rw
        (
          e,
          sub64_lem r.size start (omega arith) (omega arith),
          add64_lem r.head start (omega arith),
          rem-wrap r.capacity (r.head + start) (omega arith),
          ◌>>=◌,
        )
        (rw
          (
            sub64_lem r.capacity front (omega arith) (omega arith),
            copy_out-cut r.buffer r.capacity front n v.allocated front_in (omega arith)
                (omega arith),
          )
          (ap some (
            list_ext (cut r.buffer r.capacity front n) (take count (drop start (contents r))) λ i.
              rw
                (
                  get_elem?-cut r.buffer r.capacity front n v.allocated front_in (omega arith) i,
                  get_elem?-take count (drop start (contents r)) i,
                  get_elem?-drop start (contents r) i,
                  get_elem?-contents (start + i) v,
                )
                (ground (
                  arith,
                  ap (get_elem? r.buffer) {x = wrap r.capacity (front + i)}
                      {y = wrap r.capacity (r.head + (start + i))},
                )))))
]
