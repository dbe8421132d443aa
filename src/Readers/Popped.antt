-- ===== src/Readers/Popped.antt =====
-- One turn of the loop of `ReaderList::process` (src/OutputBuffer.cpp), which takes out the request on
-- top.
use mathlib.Core.Logic.Or
use mathlib.Core.List.{Mem, mem-cons}
use mathlib.Core.List.Perm
use native.Mathlib.Decide.{ℕ_discrete}
use ml_gridengine_executor.Base.{
  ℕ, suc, ◌+◌, ◌<◌, ◌≡◌, ◌≢◌, refl, sym, subst, ap, ◌∙◌, List, true, false, some, arith, length,
  sub64, sub64_lem, ltb-true,
}
use ml_gridengine_executor.ReadResult.{ReadResult}
use ml_gridengine_executor.Heap.{ReadRequest, PairingHeap}
use ml_gridengine_executor.Readers.{ReadState, ReaderList, update}
use ml_gridengine_executor.Readers.Weigh.{
  weigh, has_id, from, Distinct, weigh_ext, weigh-pop, length-pop, mem-le-weigh,
}
use ml_gridengine_executor.Readers.Counts.{live, active, Counts, active-le}
use ml_gridengine_executor.Readers.Reached.{ReadState-set, answered, reached, reached-le, Processed}

module _ (H : PairingHeap) where
  open H use {Heap, top, pop, items}

  module _ (w : ℕ) (g : ReadRequest → ReadResult × List ℕ) (x : ReadRequest) (l : ReaderList H)
      (on_top : top l.heap ≡ some x) (early : x.begin < w)
      (distinct : Distinct (items l.heap)) where
    -- After the request on top: the store is `s` and the number of live requests `n`.
    abbrev pub popped : (ℕ → ReadState) → ℕ → ReaderList H
    popped s n = record {
      heap = pop l.heap;
      heap_size = sub64 l.heap_size 1;
      active_count = n;
      requests = s;
    }

    -- What the body of the loop does to the store.
    pub record Served (s : ℕ → ReadState) : Type 0 where
      pub own : (l.requests x.id).cancelled ≡ false → s x.id ≡ answered (l.requests x.id) (g x)
      pub own_cancelled : (l.requests x.id).cancelled ≡ true → s x.id ≡ l.requests x.id
      pub rest : (k : ℕ) → k ≢ x.id → s k ≡ l.requests k

    alone : (y : ReadRequest) → Mem y (items (pop l.heap)) → y.id ≢ x.id
    alone y m e =
        let own : has_id x.id x ≡ 1 = ground arith in
        let other : has_id x.id y ≡ 1 = ground arith in
        omega (
          arith,
          distinct x.id,
          weigh-pop H (has_id x.id) x l.heap on_top,
          mem-le-weigh (has_id x.id) y (items (pop l.heap)) m,
        )

    pub Distinct-pop : Distinct (items (pop l.heap))
    Distinct-pop k = omega (arith, distinct k, weigh-pop H (has_id k) x l.heap on_top)

    module _ (s : ℕ → ReadState) (n : ℕ) (l' : ReaderList H) (d : Served s)
        (p : Processed H w g (popped s n) l') where
      answers_top :
          (l.requests x.id).cancelled ≡ false → l'.requests x.id ≡ answered (l.requests x.id) (g x)
      answers_top e =
          let own : has_id x.id x ≡ 1 = ground arith in
          p.skips_others x.id (
            omega (
              arith,
              distinct x.id,
              weigh-pop H (has_id x.id) x l.heap on_top,
              reached-le w x.id (items (pop l.heap)),
            ))
          ∙ d.own e

      answers_rest :
          (y : ReadRequest)
          → Mem y (items (pop l.heap))
          → y.begin < w
          → (l.requests y.id).cancelled ≡ false
          → l'.requests y.id ≡ answered (l.requests y.id) (g y)
      answers_rest y m lt e =
          let same : s y.id ≡ l.requests y.id = d.rest y.id (alone y m) in
          p.answers y m lt (ap (λ st. st.cancelled) same ∙ e) ∙ ap (λ st. answered st (g y)) same

      same_cancelled : (k : ℕ) → (l.requests k).cancelled ≡ true → s k ≡ l.requests k
      same_cancelled k e = elim (ℕ_discrete x.id k) [
        | yes q ↦
            subst (λ j. (l.requests j).cancelled ≡ true → s j ≡ l.requests j) q d.own_cancelled e
        | no q ↦ d.rest k (λ r. q (sym r))
      ]

      skips_rest : (k : ℕ) → weigh (reached w k) (items l.heap) ≡ 0 → l'.requests k ≡ l.requests k
      skips_rest k e =
          let top_reached : reached w k x ≡ has_id k x = rw (ltb-true x.begin w early) refl in
          let sum : weigh (reached w k) (items l.heap)
              ≡ reached w k x + weigh (reached w k) (items (pop l.heap)) =
            weigh-pop H (reached w k) x l.heap on_top in
          let other : has_id k x ≡ 0 = omega arith in
          p.skips_others k (omega arith) ∙ d.rest k (ground arith)

      -- The rest of the loop, from the popped list, completes the work.
      pub Processed-pop : (Counts H l → Counts H (popped s n)) → Processed H w g l l'
      Processed-pop more = record {
        keeps = λ f.
            let zero_top : from w f x ≡ 0 = rw (ltb-true x.begin w early) refl in
            omega (arith, p.keeps f, weigh-pop H (from w f) x l.heap on_top);
        counts = λ c. p.counts (more c);
        answers = λ y m lt e.
            Or.elim (ReadState-set _ _)
              (mem-cons.0 ((Perm.mem_iff (H.top_some l.heap x on_top)).0 m))
              (λ eq.
                subst
                  (λ z.
                    (l.requests z.id).cancelled ≡ false
                    → l'.requests z.id ≡ answered (l.requests z.id) (g z))
                  (sym eq) answers_top e)
              (λ n. answers_rest y n lt e);
        skips_cancelled = λ k e.
            let same : s k ≡ l.requests k = same_cancelled k e in
            p.skips_cancelled k (ap (λ st. st.cancelled) same ∙ e) ∙ same;
        skips_others = skips_rest;
      }

    -- The two cases of the loop's body: a cancelled request, and one that is answered.
    pub skipped-Served : (l.requests x.id).cancelled ≡ true → Served l.requests
    skipped-Served e = record { own = λ e'. cc; own_cancelled = λ _. refl; rest = λ k n. refl }

    unfoldable pub answering : ℕ → ReadState
    answering = update l.requests x.id (answered (l.requests x.id) (g x))

    pub answering-Served : (l.requests x.id).cancelled ≡ false → Served answering
    unfolding answering
    answering-Served e = record {
      own = λ _. ground arith;
      own_cancelled = λ e'. cc;
      rest = λ k n. ground arith;
    }

    pub skipped-Counts :
        Counts H l
        → (l.requests x.id).cancelled ≡ true
        → Counts H (popped l.requests l.active_count)
    skipped-Counts c e =
        let dead : live l.requests (λ _. 1) x ≡ 0 = rw e refl in
        omega (
          arith,
          c.sized,
          c.counted,
          c.small,
          sub64_lem l.heap_size 1,
          length-pop H x l.heap on_top,
          weigh-pop H (live l.requests (λ _. 1)) x l.heap on_top,
        )

    same_active : active answering (items (pop l.heap)) ≡ active l.requests (items (pop l.heap))
    unfolding answering
    same_active =
        weigh_ext (live answering (λ _. 1)) (live l.requests (λ _. 1)) (items (pop l.heap))
          (λ y m. ground arith)

    pub answering-Counts :
        Counts H l
        → (l.requests x.id).cancelled ≡ false
        → Counts H (popped answering (sub64 l.active_count 1))
    answering-Counts c e =
        let alive : live l.requests (λ _. 1) x ≡ 1 = rw e refl in
        let size : l.heap_size ≡ suc (length (items (pop l.heap))) =
          c.sized ∙ length-pop H x l.heap on_top in
        let fewer : sub64 l.heap_size 1 ≡ length (items (pop l.heap)) =
          omega (arith, c.small, sub64_lem l.heap_size 1) in
        record {
          sized = fewer;
          counted = omega (
            arith,
            c.counted,
            c.small,
            sub64_lem l.active_count 1,
            weigh-pop H (live l.requests (λ _. 1)) x l.heap on_top,
            same_active,
            active-le l.requests (items (pop l.heap)),
          );
          small = omega (arith, c.small);
        }
