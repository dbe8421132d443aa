-- ===== src/Ring/Contents.antt =====
-- What a circular buffer (src/OutputBuffer.h) holds, oldest byte first, and when its fields are
-- consistent.
use native.Mathlib.Nat.{mod-eq_of_lt, mod-eq-sub-mod}
use ml_gridengine_executor.Base.{
  ℕ, ◌+◌, ◌-◌, ◌^◌, ◌≤◌, ◌<◌, ◌≡◌, ap, List, ◌++◌, none, some, arith, min, ltb, ltb_cases, inl, inr,
  if◌then◌else◌, length, get_elem?, take, drop, length-append, length-take, length-drop,
  get_elem?-append, get_elem?-take, get_elem?-drop,
}
use ml_gridengine_executor.Memory.{rem, rem-some}
use ml_gridengine_executor.Ring.{Ring}

pub record IsValid (r : Ring) : Type 0 where
  pub positive : 1 ≤ r.capacity
  pub allocated : r.capacity ≤ length r.buffer
  pub bounded : r.capacity ≤ r.max_capacity
  pub small : r.max_capacity ≤ 2 ^ 63
  pub head_in : r.head < r.capacity
  pub size_in : r.size ≤ r.capacity

abbrev pub contents : Ring → List ℕ
contents r = take r.size (drop r.head (take r.capacity r.buffer) ++ take r.head r.buffer)

-- An index that has gone past the end of the ring at most once.
abbrev pub wrap : ℕ → ℕ → ℕ
wrap cap k = if ltb k cap then k else k - cap

pub rem-wrap : (cap k : ℕ) → k < cap + cap → rem k cap ≡ some (wrap cap k)
rem-wrap cap k h = elim (ltb_cases k cap) [
  | inl (e, lt) ↦ rw (e, rem-some k cap (omega arith), mod-eq_of_lt lt)
  | inr (e, ge) ↦ rw (
    e,
    rem-some k cap (omega arith),
    mod-eq-sub-mod ge,
    mod-eq_of_lt {n = k - cap} {m = cap} (omega arith),
  )
]

pub length-contents : {r : Ring} → IsValid r → length (contents r) ≡ r.size
length-contents {r} v = omega (
  arith,
  length-take r.size (drop r.head (take r.capacity r.buffer) ++ take r.head r.buffer),
  length-append (drop r.head (take r.capacity r.buffer)) (take r.head r.buffer),
  length-drop r.head (take r.capacity r.buffer),
  length-take r.capacity r.buffer,
  length-take r.head r.buffer,
)

-- The `i`-th byte held lies `i` places round the ring from the head.
pub get_elem?-contents :
    {r : Ring} (i : ℕ)
    → IsValid r
    → get_elem? (contents r) i
      ≡ (if ltb i r.size then get_elem? r.buffer (wrap r.capacity (r.head + i)) else none)
get_elem?-contents {r} i v =
    rw
      (
        get_elem?-take r.size (drop r.head (take r.capacity r.buffer) ++ take r.head r.buffer) i,
        get_elem?-append (drop r.head (take r.capacity r.buffer)) (take r.head r.buffer) i,
        get_elem?-drop,
        get_elem?-take,
        get_elem?-take,
        length-drop,
        length-take,
      )
      (ground (
        arith,
        ap (get_elem? r.buffer) {x = i - (min r.capacity (length r.buffer) - r.head)}
            {y = r.head + i - r.capacity},
      ))
