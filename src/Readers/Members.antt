-- ===== src/Readers/Members.antt =====
-- Which requests are in a heap, by weights (src/OutputBuffer.cpp, ReaderList): a request that is not
-- cancelled stays there until it is reached.
use mathlib.Core.Logic.Or
use mathlib.Core.List.{Mem, mem-cons}
use ml_gridengine_executor.Base.{
  ℕ, ◌+◌, ◌*◌, ◌%◌, ◌≤◌, ◌≡◌, List, [], ◌∷◌, false, ◌&&◌, arith, ltb, ltb-false, ◌==◌, ==_iff,
  if◌then◌else◌, sub64, word, Bool-cases, inl, inr,
}
use ml_gridengine_executor.Heap.{ReadRequest, PairingHeap}
use ml_gridengine_executor.Readers.{ReadState, ReaderList, cancel}
use ml_gridengine_executor.Readers.Weigh.{weigh, has_id, from, mem-le-weigh, Distinct}
use ml_gridengine_executor.Readers.Counts.{live, cancelling, weigh-copy_active}
use ml_gridengine_executor.Readers.Reached.{reached, from-add-reached}

-- Whether `y` is `x`.
abbrev pub same : ReadRequest → ReadRequest → ℕ
same x y = if (x.id == y.id) && ((x.begin == y.begin) && (x.count == y.count)) then 1 else 0

same_refl : (x : ReadRequest) → same x x ≡ 1
same_refl x = ground (arith, ==_iff x.id x.id, ==_iff x.begin x.begin, ==_iff x.count x.count)

same_eq : (x y : ReadRequest) → 1 ≤ same x y → x ≡ y
same_eq x y h =
    let a : x.id ≡ y.id = ground arith in
    let b : x.begin ≡ y.begin = ground arith in
    let c : x.count ≡ y.count = ground arith in λ i. record { id = a i; begin = b i; count = c i }

mem_of_same : (x : ReadRequest) (xs : List ReadRequest) → 1 ≤ weigh (same x) xs → Mem x xs
mem_of_same x [] h = absurd (omega arith)
mem_of_same x (y ∷ ys) h =
    elim (Bool-cases ((x.id == y.id) && ((x.begin == y.begin) && (x.count == y.count)))) [
      | inl c ↦ mem-cons.1 (Or.inl (same_eq x y (rw c (omega arith))))
      | inr c ↦ mem-cons.1 (
          Or.inr (
            mem_of_same x ys
              (let more : 1 ≤ 0 + weigh (same x) ys = rw c at h in omega (arith, more))))
    ]

-- A request that is in a list is there by its identity.
pub once :
    (x : ReadRequest) (xs : List ReadRequest) → Distinct xs → Mem x xs → weigh (has_id x.id) xs ≡ 1
once x xs d m =
    let one : has_id x.id x ≡ 1 = ground arith in
    omega (arith, d x.id, mem-le-weigh (has_id x.id) x xs m)

-- A request that is not reached is not among those that are.
pub not_reached :
    (w : ℕ) (x : ReadRequest) (xs : List ReadRequest)
    → Distinct xs
    → Mem x xs
    → w ≤ x.begin
    → weigh (reached w x.id) xs ≡ 0
not_reached w x xs d m le =
    let one : from w (has_id x.id) x ≡ 1 = rw (ltb-false x.begin w le) (ground arith) in
    omega (arith, d x.id, from-add-reached w x.id xs, mem-le-weigh (from w (has_id x.id)) x xs m)

-- It stays in a heap that keeps those that are not.
pub mem-keeps :
    (w : ℕ) (x : ReadRequest) (xs ys : List ReadRequest)
    → Mem x xs
    → w ≤ x.begin
    → weigh (same x) ys ≡ weigh (from w (same x)) xs
    → Mem x ys
mem-keeps w x xs ys m le e =
    let one : from w (same x) x ≡ 1 = rw (ltb-false x.begin w le) (same_refl x) in
    mem_of_same x ys (omega (arith, e, mem-le-weigh (from w (same x)) x xs m))

module _ (H : PairingHeap) where
  open H use {items}

  -- Cancelling a request leaves the others that are not cancelled in the heap.
  pub mem-cancel :
      (x y : ReadRequest) (l : ReaderList H)
      → Mem y (items l.heap)
      → (y.id == x.id) ≡ false
      → (l.requests y.id).cancelled ≡ false
      → Mem y (items (cancel H x l).heap)
  unfolding cancel
  mem-cancel x y l m other e =
      let n : ℕ = sub64 l.active_count 1 in
      let s : ℕ → ReadState = cancelling l.requests x.id in
      elim (Bool-cases (ltb (n * 8 % word) l.heap_size && ltb 1000 l.heap_size)) [
        | inr t ↦ rw t m
        | inl t ↦
            let one : live s (same y) y ≡ 1 = rw (other, e) (same_refl y) in
            rw t (
              mem_of_same y _ (
                omega (
                  arith,
                  weigh-copy_active H (same y) s (items l.heap) H.empty,
                  mem-le-weigh (live s (same y)) y (items l.heap) m,
                )))
      ]

  -- `cancel` touches the state of that request only.
  pub requests-cancel :
      (x : ReadRequest) (k : ℕ) (l : ReaderList H)
      → (k == x.id) ≡ false
      → (cancel H x l).requests k ≡ l.requests k
  unfolding cancel
  requests-cancel x k l other = ground arith
