-- ===== src/Ring/Store.antt =====
-- Bytes stored round the end of a circular buffer.
use ml_gridengine_executor.Base.{
  ℕ, ◌+◌, ◌-◌, ◌≤◌, ◌<◌, ◌≡◌, ap, List, arith, ltb, leb, leb_cases, inl, inr, if◌then◌else◌, length,
  get_elem?, take, drop, length-take, length-drop, get_elem?-take, get_elem?-drop,
}
use ml_gridengine_executor.Memory.{splice, length-splice, get_elem?-splice}

-- `xs` written at `tail` and on, going on at the start of the ring when it meets the end.
unfoldable pub store : List ℕ → ℕ → ℕ → List ℕ → List ℕ
store buf cap tail xs =
    if leb (length xs) (cap - tail)
    then splice buf tail xs
    else splice (splice buf tail (take (cap - tail) xs)) 0 (drop (cap - tail) xs)

-- How far index `p` is from `tail`, going round.
abbrev pub offset : ℕ → ℕ → ℕ → ℕ
offset cap tail p = if ltb p tail then p + cap - tail else p - tail

module _ (buf : List ℕ) (cap tail : ℕ) (xs : List ℕ) (allocated : cap ≤ length buf)
    (tail_in : tail < cap) (fits : length xs ≤ cap) where
  pub length-store : length (store buf cap tail xs) ≡ length buf
  unfolding store
  length-store = ground (
    arith,
    length-splice buf tail xs,
    length-splice buf tail (take (cap - tail) xs),
    length-splice (splice buf tail (take (cap - tail) xs)) 0 (drop (cap - tail) xs),
    length-take (cap - tail) xs,
    length-drop (cap - tail) xs,
  )

  get_elem?-splice_twice :
      (p : ℕ)
      → p < cap
      → cap - tail < length xs
      → get_elem? (splice (splice buf tail (take (cap - tail) xs)) 0 (drop (cap - tail) xs)) p ≡ (
          if ltb (offset cap tail p) (length xs)
          then get_elem? xs (offset cap tail p)
          else get_elem? buf p)
  get_elem?-splice_twice p h over =
      rw
        (
          get_elem?-splice (splice buf tail (take (cap - tail) xs)) 0 (drop (cap - tail) xs) p (
              omega (
                arith,
                length-splice buf tail (take (cap - tail) xs)
                    (omega (arith, length-take (cap - tail) xs)),
                length-drop (cap - tail) xs,
              )),
          get_elem?-splice buf tail (take (cap - tail) xs) p
              (omega (arith, length-take (cap - tail) xs)),
          get_elem?-drop,
          get_elem?-take,
          length-drop,
          length-take,
        )
        (ground (arith, ap (get_elem? xs) {x = cap - tail + (p - 0)} {y = p + cap - tail}))

  pub get_elem?-store :
      (p : ℕ)
      → p < cap
      → get_elem? (store buf cap tail xs) p ≡ (
          if ltb (offset cap tail p) (length xs)
          then get_elem? xs (offset cap tail p)
          else get_elem? buf p)
  unfolding store
  get_elem?-store p h = elim (leb_cases (length xs) (cap - tail)) [
    | inl (e, le) ↦ rw (e, get_elem?-splice buf tail xs p (omega arith)) (ground arith)
    | inr (e, gt) ↦ rw e (get_elem?-splice_twice p h gt)
  ]
