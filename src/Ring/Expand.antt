-- ===== src/Ring/Expand.antt =====
-- `_expandBuffer` (src/OutputBuffer.cpp): a larger allocation that holds the same bytes.
use ml_gridengine_executor.Base.{
  ℕ, ◌+◌, ◌-◌, ◌*◌, ◌%◌, ◌≤◌, ◌<◌, ◌≡◌, refl, ap, List, some, arith, min, max, ltb_cases, ltb-true,
  ltb-false, ◌∙◌, inl, inr, ◌>>=◌, length, get_elem?, take, drop, length-take, length-drop,
  get_elem?-take, get_elem?-drop, list_ext, add64_lem, sub64_lem, word, take-take,
}
use mathlib.Core.List.{append-nil}
use ml_gridengine_executor.Memory.{splice, memcpy-some, length-splice, get_elem?-splice}
use ml_gridengine_executor.Ring.{Ring, copy_all, expand_buffer}
use ml_gridengine_executor.Ring.Contents.{IsValid, contents, wrap, get_elem?-contents}

module _ {r : Ring} (fresh : List ℕ) (v : IsValid r) (fits : r.size ≤ length fresh) where
  right : ℕ
  right = r.capacity - r.head

  -- The new allocation, when the bytes held do not go round the end and when they do.
  straight : List ℕ
  straight = splice fresh 0 (take r.size (drop r.head r.buffer))

  first : List ℕ
  unfolding right
  first = splice fresh 0 (take right (drop r.head r.buffer))

  round : List ℕ
  unfolding first right
  round = splice first right (take (r.size - right) r.buffer)

  -- It starts with the bytes held.
  abbrev Holds : List ℕ → Type 0
  Holds b = (length b ≡ length fresh) × (take r.size b ≡ contents r)

  holds :
      (b : List ℕ)
      → ((i : ℕ) → i < r.size → get_elem? b i ≡ get_elem? r.buffer (wrap r.capacity (r.head + i)))
      → take r.size b ≡ contents r
  holds b same = list_ext (take r.size b) (contents r) λ i.
      rw (get_elem?-take r.size b i, get_elem?-contents i v)
        (elim (ltb_cases i r.size) [ inl (e, lt) ↦ rw e (same i lt) | inr (e, ge) ↦ rw e refl ])

  straight-Holds : r.head + r.size ≤ r.capacity → Holds straight
  unfolding straight
  straight-Holds h = (
    length-splice fresh 0 (take r.size (drop r.head r.buffer))
        (omega (arith, length-take r.size (drop r.head r.buffer))),
    holds straight λ i lt.
        rw
          (
            get_elem?-splice fresh 0 (take r.size (drop r.head r.buffer)) i
                (omega (arith, length-take r.size (drop r.head r.buffer))),
            get_elem?-take,
            get_elem?-drop,
            length-take,
            length-drop,
          )
          (ground (arith, ap (get_elem? r.buffer) {x = r.head + (i - 0)} {y = r.head + i})),
  )

  round-Holds : r.capacity < r.head + r.size → Holds round
  unfolding round
  round-Holds h =
      let eq₁ : length (take right (drop r.head r.buffer)) ≡ right =
        omega (arith, length-take right (drop r.head r.buffer), length-drop r.head r.buffer) in
      let eq₂ : length (take (r.size - right) r.buffer) ≡ r.size - right =
        omega (arith, length-take (r.size - right) r.buffer) in
      let eq₃ : length first ≡ length fresh =
        length-splice fresh 0 (take right (drop r.head r.buffer)) (omega arith) in
      (
        omega (arith, length-splice first right (take (r.size - right) r.buffer)),
        holds round λ i lt.
            rw
              (
                get_elem?-splice first right (take (r.size - right) r.buffer) i (omega arith),
                get_elem?-splice fresh 0 (take right (drop r.head r.buffer)) i (omega arith),
                get_elem?-take (r.size - right) r.buffer (i - right),
                get_elem?-take right (drop r.head r.buffer) (i - 0),
                get_elem?-drop,
                eq₁,
                eq₂,
              )
              (ground (
                arith,
                ap (get_elem? r.buffer) {x = r.head + (i - 0)} {y = r.head + i},
                ap (get_elem? r.buffer) {x = i - right} {y = r.head + i - r.capacity},
              )),
      )

  copy_all-round : r.capacity < r.head + r.size → copy_all fresh r ≡ some round
  unfolding copy_all round first right
  copy_all-round h =
      rw
        (
          add64_lem r.head r.size (omega arith),
          ltb-true r.capacity (r.head + r.size) h,
          sub64_lem r.capacity r.head (omega arith) (omega arith),
          sub64_lem r.size (r.capacity - r.head) (omega arith) (omega arith),
          memcpy-some fresh 0 (drop r.head r.buffer) (r.capacity - r.head)
              (omega (arith, length-drop r.head r.buffer)) (omega arith),
          ◌>>=◌,
        )
        (memcpy-some first (r.capacity - r.head) r.buffer (r.size - (r.capacity - r.head))
          (omega arith)
          (omega (
            arith,
            length-splice fresh 0 (take right (drop r.head r.buffer)),
            length-take right (drop r.head r.buffer),
          )))

  copy_all-straight : r.head + r.size ≤ r.capacity → copy_all fresh r ≡ some straight
  unfolding copy_all straight
  copy_all-straight h =
      rw (add64_lem r.head r.size (omega arith), ltb-false r.capacity (r.head + r.size) h)
        (memcpy-some fresh 0 (drop r.head r.buffer) r.size
          (omega (arith, length-drop r.head r.buffer)) (omega arith))

  copy_all-Holds : (b : List ℕ) × (copy_all fresh r ≡ some b) × Holds b
  copy_all-Holds = elim (ltb_cases r.capacity (r.head + r.size)) [
    | inl (e, lt) ↦ (round, copy_all-round lt, round-Holds lt)
    | inr (e, ge) ↦ (straight, copy_all-straight ge, straight-Holds ge)
  ]

-- `malloc` gives an allocation of the size asked for.
abbrev pub Allocates : (ℕ → List ℕ) → Type 0
Allocates malloc = (n : ℕ) → length (malloc n) ≡ n

-- What `_expandBuffer` leaves: a valid ring with the same bytes, and room for `desired` bytes as far
-- as the maximum allows.
pub record Expanded (r r' : Ring) (desired : ℕ) : Type 0 where
  pub valid : IsValid r'
  pub same : contents r' ≡ contents r
  pub same_size : r'.size ≡ r.size
  pub room : min desired r.max_capacity ≤ r'.capacity
  pub same_max : r'.max_capacity ≡ r.max_capacity
  pub same_written : r'.written_bytes ≡ r.written_bytes

abbrev new_capacity : Ring → ℕ → ℕ
new_capacity r desired = min (max (r.capacity * 2 % word) desired) r.max_capacity

-- On a valid ring, with a malloc that allocates, `_expandBuffer` does not fault, and leaves a valid
-- ring with the same bytes that has room for `desired` bytes as far as the maximum allows.
pub expand_buffer-Expanded :
    (malloc : ℕ → List ℕ) {r : Ring} (desired : ℕ)
    → Allocates malloc
    → IsValid r
    → (r' : Ring) × (expand_buffer malloc r desired ≡ some r') × Expanded r r' desired
unfolding expand_buffer
expand_buffer-Expanded malloc {r} desired alloc v =
    elim (ltb_cases r.capacity (new_capacity r desired)) [
      | inr (e, ge) ↦ (
        r,
        rw e refl,
        record {
          valid = v;
          same = refl;
          same_size = refl;
          room = omega arith;
          same_max = refl;
          same_written = refl;
        },
      )
      | inl (e, lt) ↦
          let (b, eq, (len, same)) =
            copy_all-Holds (malloc (new_capacity r desired)) v
              (omega (arith, alloc (new_capacity r desired))) in
          (
            record r { buffer = b; capacity = new_capacity r desired; head = 0 },
            rw (e, eq) refl,
            record {
              valid = omega (arith, alloc (new_capacity r desired));
              same =
                  ap (take r.size) (append-nil (take (new_capacity r desired) b))
                  ∙ take-take r.size (new_capacity r desired) b (omega arith)
                  ∙ same;
              same_size = refl;
              room = omega arith;
              same_max = refl;
              same_written = refl;
            },
          )
    ]
