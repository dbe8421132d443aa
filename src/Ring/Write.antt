-- ===== src/Ring/Write.antt =====
-- `_circularWrite` (src/OutputBuffer.cpp): it appends to what the ring holds as many of the bytes as
-- there is room for.
use ml_gridengine_executor.Base.{
  ℕ, ◌+◌, ◌-◌, ◌≤◌, ◌<◌, ◌≡◌, refl, ap, List, ◌++◌, none, some, arith, min, ltb, leb_cases,
  ltb_cases, inl, inr, if◌then◌else◌, ◌>>=◌, length, get_elem?, take, drop, length-take,
  length-drop, get_elem?-take, get_elem?-append, list_ext, word, take-take, drop-take, add64_lem,
  sub64_lem,
}
use ml_gridengine_executor.Memory.{splice, memcpy-some, length-splice}
use ml_gridengine_executor.Ring.{Ring, copy_in, circular_write}
use ml_gridengine_executor.Ring.Contents.{
  IsValid, contents, wrap, rem-wrap, length-contents, get_elem?-contents,
}
use ml_gridengine_executor.Ring.Store.{store, offset, length-store, get_elem?-store}

copy_in-store :
    (buf : List ℕ) (cap tail : ℕ) (bytes : List ℕ) (n : ℕ)
    → cap ≤ length buf
    → tail < cap
    → n ≤ cap
    → n ≤ length bytes
    → n < word
    → copy_in buf tail (cap - tail) bytes n ≡ some (store buf cap tail (take n bytes))
unfolding copy_in store
copy_in-store buf cap tail bytes n hb ht hn hx hw = elim (leb_cases n (cap - tail)) [
  | inl (e, le) ↦ ground (arith, memcpy-some buf tail bytes n, length-take n bytes)
  | inr (e, gt) ↦
      rw
        (
          e,
          sub64_lem n (cap - tail) (omega arith) hw,
          memcpy-some buf tail bytes (cap - tail) (omega arith) (omega arith),
          ◌>>=◌,
          memcpy-some (splice buf tail (take (cap - tail) bytes)) 0 (drop (cap - tail) bytes)
              (n - (cap - tail)) (omega (arith, length-drop (cap - tail) bytes))
              (omega (
                arith,
                length-splice buf tail (take (cap - tail) bytes)
                    (omega (arith, length-take (cap - tail) bytes)),
              )),
          ← drop-take (cap - tail) n bytes,
          ← take-take (cap - tail) n bytes (omega arith),
        )
        (ground (arith, length-take n bytes))
]

module _ {r : Ring} (bytes : List ℕ) (v : IsValid r) where
  unfoldable pub count : ℕ
  count = min (length bytes) (r.capacity - r.size)

  unfoldable pub written : Ring
  unfolding count
  written = record r {
    buffer = store r.buffer r.capacity (wrap r.capacity (r.head + r.size)) (take count bytes);
    size = r.size + count;
  }

  pub circular_write-written : circular_write r bytes ≡ some (count, written)
  unfolding circular_write count written
  circular_write-written =
      rw
        (
          sub64_lem r.capacity r.size v.size_in (omega arith),
          add64_lem r.head r.size (omega arith),
          rem-wrap r.capacity (r.head + r.size) (omega arith),
          ◌>>=◌,
        )
        (rw
          (
            sub64_lem r.capacity (wrap r.capacity (r.head + r.size)) (ground arith) (omega arith),
            copy_in-store r.buffer r.capacity (wrap r.capacity (r.head + r.size)) bytes count
                v.allocated (ground arith) (omega arith) (omega arith) (omega arith),
            ◌>>=◌,
            add64_lem r.size count (omega arith),
          )
          refl)

  tail_in : wrap r.capacity (r.head + r.size) < r.capacity
  tail_in = ground arith

  pub written-IsValid : IsValid written
  unfolding written count
  written-IsValid = record {
    positive = v.positive;
    allocated = omega (
      arith,
      length-store r.buffer r.capacity (wrap r.capacity (r.head + r.size)) (take count bytes)
          v.allocated tail_in (omega (arith, length-take count bytes)),
    );
    bounded = v.bounded;
    small = v.small;
    head_in = v.head_in;
    size_in = omega arith;
  }

  tail : ℕ
  tail = wrap r.capacity (r.head + r.size)

  kept : List ℕ
  unfolding count
  kept = take count bytes

  get_elem?-written :
      (p : ℕ)
      → p < r.capacity
      → get_elem? written.buffer p ≡ (
          if ltb (offset r.capacity tail p) count
          then get_elem? kept (offset r.capacity tail p)
          else get_elem? r.buffer p)
  unfolding written count tail kept
  get_elem?-written p h =
      rw
        (
          get_elem?-store r.buffer r.capacity tail (take count bytes) v.allocated tail_in
              (omega (arith, length-take count bytes)) p h,
          length-take count bytes,
        )
        (ground arith)

  -- The ring at the place of its `i`-th byte.
  agree :
      (i : ℕ)
      → (if ltb i written.size
          then get_elem? written.buffer (wrap written.capacity (written.head + i))
          else none)
        ≡ (if ltb i r.size
            then get_elem? r.buffer (wrap r.capacity (r.head + i))
            else get_elem? kept (i - r.size))
  unfolding written count tail kept
  agree i = elim (ltb_cases i (r.size + count)) [
    | inl (e, lt) ↦
        rw (e, get_elem?-written (wrap r.capacity (r.head + i)) (ground arith))
          (ground (
            arith,
            ap (get_elem? kept) {x = offset r.capacity tail (wrap r.capacity (r.head + i))}
                {y = i - r.size},
          ))
    | inr (e, ge) ↦ rw (e, get_elem?-take count bytes (i - r.size)) (ground arith)
  ]

  -- The bytes kept are those held before, and then the first `count` of the new ones.
  pub contents-written : contents written ≡ contents r ++ take count bytes
  unfolding kept
  contents-written = list_ext (contents written) (contents r ++ take count bytes) same
    where
      same : (i : ℕ) → get_elem? (contents written) i ≡ get_elem? (contents r ++ take count bytes) i
      same i =
          rw
            (
              get_elem?-contents i written-IsValid,
              get_elem?-append (contents r) (take count bytes) i,
              get_elem?-contents i v,
              length-contents v,
              agree i,
            )
            (ground arith)
