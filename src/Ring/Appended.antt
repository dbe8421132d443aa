-- ===== src/Ring/Appended.antt =====
-- The two ways in which `_overwrite` (src/OutputBuffer.cpp) makes room: it drops the oldest bytes, and
-- appends what fits.
use ml_gridengine_executor.Base.{
  ℕ, ◌+◌, ◌-◌, ◌≤◌, ◌≡◌, sym, ap, List, ◌++◌, some, arith, ◌∙◌, length, get_elem?, drop,
  get_elem?-drop, list_ext, add64, length-append, take_all, drop_all, drop-append, take_last,
}
use ml_gridengine_executor.Ring.{Ring, circular_write}
use ml_gridengine_executor.Ring.Contents.{IsValid, contents, wrap, get_elem?-contents}
use ml_gridengine_executor.Ring.Write.{
  count, written, circular_write-written, written-IsValid, contents-written,
}

-- The ring without its oldest bytes, as `_overwrite` makes it.
abbrev pub dropped : Ring → ℕ → Ring
dropped r lost = record r { size = r.size - lost; head = wrap r.capacity (r.head + lost) }

module _ {r : Ring} (lost : ℕ) (v : IsValid r) (h : lost ≤ r.size) where
  pub dropped-IsValid : IsValid (dropped r lost)
  dropped-IsValid = ground arith

  pub contents-dropped : contents (dropped r lost) ≡ drop lost (contents r)
  contents-dropped = list_ext (contents (dropped r lost)) (drop lost (contents r)) λ i.
      rw
        (
          get_elem?-contents i dropped-IsValid,
          get_elem?-drop lost (contents r) i,
          get_elem?-contents (lost + i) v,
        )
        (ground (
          arith,
          ap (get_elem? r.buffer) {x = wrap r.capacity (wrap r.capacity (r.head + lost) + i)}
              {y = wrap r.capacity (r.head + (lost + i))},
        ))

-- What an overwrite leaves when the ring's capacity is `cap`.
pub record Overwrote (cap : ℕ) (r r' : Ring) (bytes : List ℕ) : Type 0 where
  pub valid : IsValid r'
  pub last : contents r' ≡ take_last cap (contents r ++ bytes)
  pub same_max : r'.max_capacity ≡ r.max_capacity
  pub more_written : r'.written_bytes ≡ r.written_bytes + length bytes

abbrev pub counted : Ring → ℕ → Ring
counted r n = record r { written_bytes = add64 r.written_bytes n }

module _ {q : Ring} (bytes : List ℕ) (v : IsValid q)
    (fits : length bytes ≤ q.capacity - q.size) where
  -- With room for all the bytes, `_circularWrite` appends them.
  pub circular_write-fits : circular_write q bytes ≡ some (length bytes, written bytes v)
  unfolding count
  circular_write-fits =
      circular_write-written bytes v
      ∙ ap (λ k. some (k, written bytes v)) {x = count bytes v} {y = length bytes} (omega arith)

  pub contents-fits : contents (written bytes v) ≡ contents q ++ bytes
  unfolding count
  contents-fits =
      contents-written bytes v
      ∙ ap (λ l. contents q ++ l) (take_all (count bytes v) bytes (omega arith))

  -- The ring that the last lines of `_overwrite` leave, from a ring `q` that came of `r`.
  unfoldable pub appended : ℕ → Ring
  appended n = record (written bytes v) { written_bytes = q.written_bytes + n }

  pub appended-Overwrote :
      (r : Ring) (all : List ℕ)
      → contents q ++ bytes ≡ take_last r.capacity (contents r ++ all)
      → q.max_capacity ≡ r.max_capacity
      → q.written_bytes ≡ r.written_bytes
      → Overwrote r.capacity r (appended (length all)) all
  unfolding appended written
  appended-Overwrote r all e same wrote =
      let ok : IsValid (written bytes v) = written-IsValid bytes v in
      record {
        valid = record {
          positive = ok.positive;
          allocated = ok.allocated;
          bounded = ok.bounded;
          small = ok.small;
          head_in = ok.head_in;
          size_in = ok.size_in;
        };
        last = contents-fits ∙ e;
        same_max = same;
        more_written = ap (λ k. k + length all) wrote;
      }

-- What is left of the old bytes and the new ones, by how many of the old are lost.
pub take_last-lost :
    (cap lost : ℕ) (xs ys : List ℕ)
    → lost ≡ length xs + length ys - cap
    → lost ≤ length xs
    → drop lost xs ++ ys ≡ take_last cap (xs ++ ys)
take_last-lost cap lost xs ys e h =
    ap (λ k. drop lost xs ++ drop k ys) {x = 0} (omega arith)
    ∙ sym (drop-append lost xs ys)
    ∙ ap (λ k. drop k (xs ++ ys)) (omega (arith, length-append xs ys))

pub take_last-all_lost :
    (cap : ℕ) (xs ys : List ℕ)
    → cap ≤ length ys
    → drop (length ys - cap) ys ≡ take_last cap (xs ++ ys)
take_last-all_lost cap xs ys h =
    ap (λ k. drop k ys) (omega (arith, length-append xs ys))
    ∙ ap (λ l. l ++ drop (length (xs ++ ys) - cap - length xs) ys)
        (sym (drop_all (length (xs ++ ys) - cap) xs (omega (arith, length-append xs ys))))
    ∙ sym (drop-append (length (xs ++ ys) - cap) xs ys)
