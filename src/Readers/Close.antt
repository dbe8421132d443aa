-- ===== src/Readers/Close.antt =====
-- `ReaderList::close` (src/OutputBuffer.cpp): every request in the heap is told that the buffer has
-- closed, and the heap is emptied.
use ml_gridengine_executor.Base.{
  ℕ, zero, suc, ◌<◌, ◌≡◌, refl, ap, ◌∙◌, [], true, Option, none, some, arith, ◌==◌, if◌then◌else◌,
  length, Bool-cases, inl, inr,
}
use ml_gridengine_executor.ReadResult.{closed}
use ml_gridengine_executor.Heap.{ReadRequest, PairingHeap}
use ml_gridengine_executor.Readers.{ReadState, ReaderList, update, close_loop, close}
use ml_gridengine_executor.Readers.Weigh.{weigh, has_id, weigh-pop, length-pop}

-- A request that is told so.
abbrev pub shut : ReadState → ReadState
shut st = record st { result = closed; signalled = true }

module _ (H : PairingHeap) where
  open H use {Heap, top, pop, items}

  -- The store after the loop: the requests that were in the heap are shut.
  abbrev pub shut_in : Heap → (ℕ → ReadState) → ℕ → ReadState
  shut_in h s k = if weigh (has_id k) (items h) == 0 then s k else shut (s k)

  abbrev shut_top : ReadRequest → (ℕ → ReadState) → ℕ → ReadState
  shut_top x s = update s x.id (shut (s x.id))

  shut_in-pop :
      (h : Heap) (s : ℕ → ReadState) (x : ReadRequest) (k : ℕ)
      → top h ≡ some x
      → shut_in (pop h) (shut_top x s) k ≡ shut_in h s k
  shut_in-pop h s x k e = elim (Bool-cases (k == x.id)) [
    | inl t ↦
        let q : k ≡ x.id = ground arith in
        let here : has_id k x ≡ 1 = ground arith in
        rw t (ground (arith, weigh-pop H (has_id k) x h e, ap s q))
    | inr t ↦
        let other : has_id k x ≡ 0 = ground arith in
        rw t (ground (arith, weigh-pop H (has_id k) x h e))
  ]

  abbrev Ends : ℕ → Heap → (ℕ → ReadState) → Type 0
  Ends fuel h s =
      (h' : Heap) × (s' : ℕ → ReadState) × (close_loop H fuel h s ≡ some (h', s'))
      × (items h' ≡ [])
      × ((k : ℕ) → s' k ≡ shut_in h s k)

  close_loop-Ends :
      (fuel : ℕ) (h : Heap) (s : ℕ → ReadState) (o : Option ReadRequest)
      → top h ≡ o
      → length (items h) < fuel
      → Ends fuel h s
  unfolding close_loop
  close_loop-Ends zero h s o e lt = absurd (omega arith)
  close_loop-Ends (suc fuel) h s none e lt =
      (h, s, rw (e, close_loop) refl, H.top_none h e, λ k. rw (H.top_none h e) refl)
  close_loop-Ends (suc fuel) h s (some x) e lt =
      let (h', s', eq, empty, same) =
        close_loop-Ends fuel (pop h) (shut_top x s) (top (pop h)) refl
          (omega (arith, length-pop H x h e)) in
      (h', s', (rw (e, close_loop) eq), empty, λ k. same k ∙ shut_in-pop h s x k e)

  -- What `close` leaves of `l`.
  pub record Closed (l l' : ReaderList H) : Type 0 where
    pub no_items : items l'.heap ≡ []
    pub no_size : l'.heap_size ≡ 0
    pub no_active : l'.active_count ≡ 0
    pub requests_shut : (k : ℕ) → l'.requests k ≡ shut_in l.heap l.requests k

  -- `close` ends, and leaves an empty heap and zero counters; every request that was in the heap has
  -- the result Closed and is woken, and the others are as they were.
  pub close-Closed : (l : ReaderList H) → (l' : ReaderList H) × (close H l ≡ some l') × Closed l l'
  unfolding close
  close-Closed l =
      let (h', s', eq, empty, same) =
        close_loop-Ends (suc (length (items l.heap))) l.heap l.requests (top l.heap) refl
          (omega arith) in
      (
        record { heap = h'; heap_size = 0; active_count = 0; requests = s' },
        rw eq refl,
        record { no_items = empty; no_size = refl; no_active = refl; requests_shut = same },
      )
