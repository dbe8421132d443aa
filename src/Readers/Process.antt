-- ===== src/Readers/Process.antt =====
-- `ReaderList::process` (src/OutputBuffer.cpp) ends, and answers the requests whose position has been
-- reached.
use mathlib.Core.Logic.Or
use mathlib.Core.List.{Mem, mem-cons}
use mathlib.Core.List.Perm
use ml_gridengine_executor.Base.{
  ℕ, zero, suc, ◌<◌, ◌≡◌, refl, sym, ◌∙◌, List, true, false, Option, none, some, arith, ltb, length,
  sub64, Bool-cases, inl, inr, ltb_cases,
}
use ml_gridengine_executor.ReadResult.{ReadResult}
use ml_gridengine_executor.Heap.{ReadRequest, PairingHeap}
use ml_gridengine_executor.Readers.{
  ReadState, ReaderList, update, answer, serve, process_loop, process,
}
use ml_gridengine_executor.Readers.Weigh.{from, Distinct, weigh-from, weigh-none, length-pop}
use ml_gridengine_executor.Readers.Reached.{answered, Processed, idle-Processed}
use ml_gridengine_executor.Readers.Popped.{
  popped, Distinct-pop, Processed-pop, skipped-Served, answering, answering-Served, skipped-Counts,
  answering-Counts,
}

module _ (H : PairingHeap) where
  open H use {Heap, top, pop, items}

  module _ (f : ReadRequest → Option (ReadResult × List ℕ)) (x : ReadRequest)
      (l : ReaderList H) where
    serve_dead : (l.requests x.id).cancelled ≡ true → serve H f x l ≡ some l
    unfolding serve
    serve_dead e = rw (e, serve) refl

    serve-answer : (l.requests x.id).cancelled ≡ false → serve H f x l ≡ answer H f x l
    unfolding serve
    serve-answer e = rw (e, serve) refl

    answer-some :
        (a : ReadResult × List ℕ)
        → f x ≡ some a
        → answer H f x l
          ≡ some (record l {
            requests = update l.requests x.id (answered (l.requests x.id) a);
            active_count = sub64 l.active_count 1;
          })
    unfolding answer
    answer-some a e = rw e refl

    serve_alive :
        (a : ReadResult × List ℕ)
        → (l.requests x.id).cancelled ≡ false
        → f x ≡ some a
        → serve H f x l
          ≡ some (record l {
            requests = update l.requests x.id (answered (l.requests x.id) a);
            active_count = sub64 l.active_count 1;
          })
    serve_alive a e e' = serve-answer e ∙ answer-some a e'

    process_loop-step :
        (fuel w : ℕ) (q : ReaderList H)
        → top l.heap ≡ some x
        → ltb x.begin w ≡ true
        → serve H f x l ≡ some q
        → process_loop H (suc fuel) w f l
          ≡ process_loop H fuel w f
              (record q { heap = pop q.heap; heap_size = sub64 q.heap_size 1 })
    unfolding process_loop
    process_loop-step fuel w q e t r = rw (e, process_loop, t, r) refl

  -- The loop ends within the fuel that `process` gives it, and does its work.
  process_loop-Processed :
      (fuel w : ℕ) (f : ReadRequest → Option (ReadResult × List ℕ))
      (g : ReadRequest → ReadResult × List ℕ) (l : ReaderList H)
      → ((y : ReadRequest) → Mem y (items l.heap) → y.begin < w → f y ≡ some (g y))
      → Distinct (items l.heap)
      → length (items l.heap) < fuel
      → (o : Option ReadRequest) → top l.heap ≡ o
      → (l' : ReaderList H) × (process_loop H fuel w f l ≡ some l') × Processed H w g l l'
  unfolding process_loop
  process_loop-Processed zero w f g l ok d h o e = absurd (omega arith)
  process_loop-Processed (suc fuel) w f g l ok d h none e = (
    l,
    rw (e, process_loop) refl,
    idle-Processed H w g l (λ k. weigh-none H k l.heap e ∙ sym (weigh-none H (from w k) l.heap e)),
  )
  process_loop-Processed (suc fuel) w f g l ok d h (some x) e = elim (ltb_cases x.begin w) [
    | inr (t, ge) ↦ (
      l,
      rw (e, process_loop, t) refl,
      idle-Processed H w g l (λ k. weigh-from H k w x l.heap e ge),
    )
    | inl (t, lt) ↦
        let ok' : (y : ReadRequest) → Mem y (items (pop l.heap)) → y.begin < w → f y ≡ some (g y) =
          λ y m. ok y ((Perm.mem_iff (H.top_some l.heap x e)).1 (mem-cons.1 (Or.inr m))) in
        let on_heap : Mem x (items l.heap) =
          (Perm.mem_iff (H.top_some l.heap x e)).1 (mem-cons.1 (Or.inl refl)) in
        let d' : Distinct (items (pop l.heap)) = Distinct-pop H w g x l e lt d in
        let h' : length (items (pop l.heap)) < fuel = omega (arith, length-pop H x l.heap e) in
        elim (Bool-cases (l.requests x.id).cancelled) [
          | inl dead ↦
              let s : ℕ → ReadState = l.requests in
              let n : ℕ = l.active_count in
              let (l', eq, p) =
                process_loop-Processed fuel w f g (popped H w g x l e lt d s n) ok' d' h'
                  (top (pop l.heap)) refl in
              (
                l',
                process_loop-step f x l fuel w l e t (serve_dead f x l dead) ∙ eq,
                Processed-pop H w g x l e lt d s n l' (skipped-Served H w g x l e lt d dead) p
                    (λ c. skipped-Counts H w g x l e lt d c dead),
              )
          | inr alive ↦
              let s : ℕ → ReadState = answering H w g x l e lt d in
              let n : ℕ = sub64 l.active_count 1 in
              let (l', eq, p) =
                process_loop-Processed fuel w f g (popped H w g x l e lt d s n) ok' d' h'
                  (top (pop l.heap)) refl in
              (
                l',
                process_loop-step f x l fuel w (record l { requests = s; active_count = n }) e t
                      (unfold answering in serve_alive f x l (g x) alive (ok x on_heap lt))
                    ∙ eq,
                Processed-pop H w g x l e lt d s n l' (answering-Served H w g x l e lt d alive) p
                    (λ c. answering-Counts H w g x l e lt d c alive),
              )
        ]
  ]

  -- On a list of distinct requests, and a callback that gives an answer to
  -- each that begins before `written`, `process` ends, answers every such request that is not
  -- cancelled, takes those requests out, leaves the others as they were, and keeps the counters
  -- right if they were.
  pub process-Processed :
      (w : ℕ) (f : ReadRequest → Option (ReadResult × List ℕ))
      (g : ReadRequest → ReadResult × List ℕ) (l : ReaderList H)
      → ((y : ReadRequest) → Mem y (items l.heap) → y.begin < w → f y ≡ some (g y))
      → Distinct (items l.heap)
      → (l' : ReaderList H) × (process H w f l ≡ some l') × Processed H w g l l'
  unfolding process
  process-Processed w f g l ok d =
      process_loop-Processed (suc (length (items l.heap))) w f g l ok d (omega arith) (top l.heap)
        refl
