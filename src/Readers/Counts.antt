-- ===== src/Readers/Counts.antt =====
-- The counters of ReaderList (src/OutputBuffer.cpp): `_heapSize` is the number of requests in the
-- heap, and `_activeCount` the number of those that are not cancelled.
use ml_gridengine_executor.Base.{
  ℕ, ◌+◌, ◌*◌, ◌%◌, ◌^◌, ◌≤◌, ◌<◌, ◌≡◌, refl, ap, List, [], ◌∷◌, true, false, ◌&&◌, arith, ltb,
  ◌==◌, if◌then◌else◌, length, sub64, add64_lem, sub64_lem, word, Bool-cases, inl, inr,
}
use ml_gridengine_executor.Heap.{ReadRequest, PairingHeap}
use ml_gridengine_executor.Readers.{ReadState, ReaderList, update, add, cancel, copy_active}
use ml_gridengine_executor.Readers.Weigh.{weigh, has_id, weigh-push, length-weigh, weigh_ext}

-- A weight that leaves out the cancelled requests.
abbrev pub live : (ℕ → ReadState) → (ReadRequest → ℕ) → ReadRequest → ℕ
live s f x = if (s x.id).cancelled then 0 else f x

abbrev pub active : (ℕ → ReadState) → List ReadRequest → ℕ
active s = weigh (live s (λ _. 1))

-- Marking the request `k` as cancelled.
abbrev pub cancelling : (ℕ → ReadState) → ℕ → ℕ → ReadState
cancelling s k = update s k (record (s k) { cancelled = true })

-- It takes the live occurrences of that request out of the count.
pub active-cancelling :
    (s : ℕ → ReadState) (k : ℕ) (xs : List ReadRequest)
    → (s k).cancelled ≡ false
    → active (cancelling s k) xs + weigh (has_id k) xs ≡ active s xs
active-cancelling s k [] e = omega arith
active-cancelling s k (x ∷ xs) e = elim (Bool-cases (x.id == k)) [
  | inl h ↦
      rw h
        (let id : x.id ≡ k = ground arith in rw (id, e) (omega (arith, active-cancelling s k xs e)))
  | inr h ↦ rw h (omega (arith, active-cancelling s k xs e))
]

pub active-le : (s : ℕ → ReadState) (xs : List ReadRequest) → active s xs ≤ length xs
active-le s [] = omega arith
active-le s (x ∷ xs) = ground (arith, active-le s xs)

-- The state of a request that is not in the list does not count.
pub active-update :
    (s : ℕ → ReadState) (k : ℕ) (v : ReadState) (xs : List ReadRequest)
    → weigh (has_id k) xs ≡ 0
    → active (update s k v) xs ≡ active s xs
active-update s k v [] e = refl
active-update s k v (x ∷ xs) e = elim (Bool-cases (x.id == k)) [
  | inl h ↦ absurd (let here : has_id k x ≡ 1 = rw h refl in omega arith)
  | inr h ↦ rw h (omega (arith, active-update s k v xs (omega arith)))
]

module _ (H : PairingHeap) where
  open H use {Heap, push, items}

  -- `small` keeps `_activeCount * 8` from wrapping.
  pub record Counts (l : ReaderList H) : Type 0 where
    pub sized : l.heap_size ≡ length (items l.heap)
    pub counted : l.active_count ≡ active l.requests (items l.heap)
    pub small : l.heap_size < 2 ^ 60

  -- `add` of a request that is not cancelled, to a list with right counters and room for one
  -- more, keeps the counters right.
  pub add-Counts :
      (x : ReadRequest) (l : ReaderList H)
      → l.heap_size + 1 < 2 ^ 60
      → (l.requests x.id).cancelled ≡ false
      → Counts l
      → Counts (add H x l)
  unfolding add
  add-Counts x l h e c = record {
    sized = omega (
      arith,
      add64_lem l.heap_size 1,
      c.sized,
      length-weigh (items (push x l.heap)),
      length-weigh (items l.heap),
      weigh-push H (λ _. 1) x l.heap,
    );
    counted =
        let one : live l.requests (λ _. 1) x ≡ 1 = rw e refl in
        omega (
          arith,
          add64_lem l.active_count 1,
          c.counted,
          c.sized,
          active-le l.requests (items l.heap),
          weigh-push H (live l.requests (λ _. 1)) x l.heap,
        );
    small = omega (arith, add64_lem l.heap_size 1);
  }

  pub weigh-copy_active :
      (f : ReadRequest → ℕ) (s : ℕ → ReadState) (xs : List ReadRequest) (h : Heap)
      → weigh f (items (copy_active H s xs h)) ≡ weigh (live s f) xs + weigh f (items h)
  unfolding copy_active
  weigh-copy_active f s [] h = omega arith
  weigh-copy_active f s (x ∷ xs) h = elim (Bool-cases (s x.id).cancelled) [
    | inl e ↦ rw e (omega (arith, weigh-copy_active f s xs h))
    | inr e ↦ rw e (omega (arith, weigh-copy_active f s xs (push x h), weigh-push H f x h))
  ]

  live-twice :
      (f : ReadRequest → ℕ) (s : ℕ → ReadState) (xs : List ReadRequest)
      → weigh (live s (live s f)) xs ≡ weigh (live s f) xs
  live-twice f s xs = weigh_ext (live s (live s f)) (live s f) xs λ x m. ground arith

  -- The heap that `cancel` rebuilds holds the requests that are not cancelled.
  rebuilt-Counts :
      (s : ℕ → ReadState) (xs : List ReadRequest) (n : ℕ)
      → n ≡ active s xs
      → length xs < 2 ^ 60
      → Counts (record {
        heap = copy_active H s xs H.empty;
        heap_size = n;
        active_count = n;
        requests = s;
      })
  rebuilt-Counts s xs n e small =
      let h : Heap = copy_active H s xs H.empty in
      let none_left : (f : ReadRequest → ℕ) → weigh f (items H.empty) ≡ 0 =
        λ f. ap (weigh f) H.items-empty in
      record {
        sized = omega (
          arith,
          length-weigh (items h),
          weigh-copy_active (λ _. 1) s xs H.empty,
          none_left (λ _. 1),
        );
        counted = omega (
          arith,
          weigh-copy_active (live s (λ _. 1)) s xs H.empty,
          live-twice (λ _. 1) s xs,
          none_left (live s (λ _. 1)),
        );
        small = omega (arith, active-le s xs);
      }

  -- `cancel` of a request that is in the heap once and was not cancelled keeps the counters
  -- right, whether or not the heap is rebuilt.
  pub cancel-Counts :
      (x : ReadRequest) (l : ReaderList H)
      → (l.requests x.id).cancelled ≡ false
      → weigh (has_id x.id) (items l.heap) ≡ 1
      → Counts l
      → Counts (cancel H x l)
  unfolding cancel
  cancel-Counts x l e once c =
      let s : ℕ → ReadState = cancelling l.requests x.id in
      let n : ℕ = sub64 l.active_count 1 in
      let less : n ≡ active s (items l.heap) = omega (
        arith,
        sub64_lem l.active_count 1,
        c.counted,
        c.sized,
        c.small,
        active-le l.requests (items l.heap),
        active-cancelling l.requests x.id (items l.heap) e,
      ) in
      elim (Bool-cases (ltb (n * 8 % word) l.heap_size && ltb 1000 l.heap_size)) [
        | inl t ↦ rw t (rebuilt-Counts s (items l.heap) n less (omega (arith, c.sized, c.small)))
        | inr t ↦ rw t (record { sized = c.sized; counted = less; small = c.small })
      ]

  live-le :
      (f : ReadRequest → ℕ) (s : ℕ → ReadState) (xs : List ReadRequest)
      → weigh (live s f) xs ≤ weigh f xs
  live-le f s [] = omega arith
  live-le f s (x ∷ xs) = ground (arith, live-le f s xs)

  -- `cancel` adds no request to the heap.
  pub cancel-le :
      (f : ReadRequest → ℕ) (x : ReadRequest) (l : ReaderList H)
      → weigh f (items (cancel H x l).heap) ≤ weigh f (items l.heap)
  unfolding cancel
  cancel-le f x l =
      let n : ℕ = sub64 l.active_count 1 in
      let s : ℕ → ReadState = cancelling l.requests x.id in
      elim (Bool-cases (ltb (n * 8 % word) l.heap_size && ltb 1000 l.heap_size)) [
        | inr t ↦ rw t (omega arith)
        | inl t ↦ rw t (
            omega (
              arith,
              weigh-copy_active f s (items l.heap) H.empty,
              live-le f s (items l.heap),
              ap (weigh f) H.items-empty,
            ))
      ]

  -- What `cancel` leaves of the counts, on both of its branches.
  pub active_count-cancel :
      (x : ReadRequest) (l : ReaderList H) → (cancel H x l).active_count ≡ sub64 l.active_count 1
  unfolding cancel
  active_count-cancel x l = ground arith

  pub active-cancel :
      (x : ReadRequest) (l : ReaderList H)
      → active (cancel H x l).requests (items (cancel H x l).heap)
        ≡ active (cancelling l.requests x.id) (items l.heap)
  unfolding cancel
  active-cancel x l =
      let n : ℕ = sub64 l.active_count 1 in
      let s : ℕ → ReadState = cancelling l.requests x.id in
      elim (Bool-cases (ltb (n * 8 % word) l.heap_size && ltb 1000 l.heap_size)) [
        | inr t ↦ rw t refl
        | inl t ↦ rw t (
            omega (
              arith,
              weigh-copy_active (live s (λ _. 1)) s (items l.heap) H.empty,
              live-twice (λ _. 1) s (items l.heap),
              ap (weigh (live s (λ _. 1))) H.items-empty,
            ))
      ]
