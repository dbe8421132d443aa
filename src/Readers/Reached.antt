-- ===== src/Readers/Reached.antt =====
-- What `ReaderList::process` leaves (src/OutputBuffer.cpp): the requests whose position has been reached
-- are answered and taken out, and the others are as they were.
use mathlib.Core.List.{Mem}
use ml_gridengine_executor.Base.{
  ℕ, ◌+◌, ◌≤◌, ◌<◌, ◌≡◌, refl, ◌∙◌, List, [], ◌∷◌, true, false, arith, ltb, if◌then◌else◌, ltb-true,
}
use ml_gridengine_executor.ReadResult.{ReadResult}
use ml_gridengine_executor.Heap.{ReadRequest, PairingHeap}
use ml_gridengine_executor.Readers.{ReadState, ReaderList}
use ml_gridengine_executor.Readers.Weigh.{
  weigh, has_id, from, Distinct, mem-le-weigh, before, late_of_before,
}
use ml_gridengine_executor.Readers.Counts.{Counts}

pub ReadState-set : IsSet ReadState
ReadState-set = hlevel

-- A request that has its answer, and whose reader is woken.
abbrev pub answered : ReadState → ReadResult × List ℕ → ReadState
answered st a = record st { result = a.0; target = a.1; signalled = true }

-- How often a request that begins before `w` is the request `k`.
abbrev pub reached : ℕ → ℕ → ReadRequest → ℕ
reached w k x = if ltb x.begin w then has_id k x else 0

-- No request begins both before `w` and not before.
weigh_late : (w : ℕ) (xs : List ReadRequest) → weigh (from w (before w)) xs ≡ 0
weigh_late w [] = refl
weigh_late w (x ∷ xs) = ground (arith, weigh_late w xs)

pub from-le :
    (w : ℕ) (f : ReadRequest → ℕ) (xs : List ReadRequest) → weigh (from w f) xs ≤ weigh f xs
from-le w f [] = omega arith
from-le w f (x ∷ xs) = ground (arith, from-le w f xs)

pub from-add-reached :
    (w k : ℕ) (xs : List ReadRequest)
    → weigh (from w (has_id k)) xs + weigh (reached w k) xs ≡ weigh (has_id k) xs
from-add-reached w k [] = omega arith
from-add-reached w k (x ∷ xs) = ground (arith, from-add-reached w k xs)

pub reached-le : (w k : ℕ) (xs : List ReadRequest) → weigh (reached w k) xs ≤ weigh (has_id k) xs
reached-le w k [] = omega arith
reached-le w k (x ∷ xs) = ground (arith, reached-le w k xs)

module _ (H : PairingHeap) where
  open H use {Heap, top, pop, items}

  -- What `process` leaves of `l`, if the answer to `x` is `g x`.
  pub record Processed (w : ℕ) (g : ReadRequest → ReadResult × List ℕ) (l l' : ReaderList H)
      : Type 0 where
    pub keeps : (f : ReadRequest → ℕ) → weigh f (items l'.heap) ≡ weigh (from w f) (items l.heap)
    pub counts : Counts H l → Counts H l'
    pub answers :
        (x : ReadRequest)
        → Mem x (items l.heap)
        → x.begin < w
        → (l.requests x.id).cancelled ≡ false
        → l'.requests x.id ≡ answered (l.requests x.id) (g x)
    pub skips_cancelled : (k : ℕ) → (l.requests k).cancelled ≡ true → l'.requests k ≡ l.requests k
    pub skips_others :
        (k : ℕ) → weigh (reached w k) (items l.heap) ≡ 0 → l'.requests k ≡ l.requests k

  module _ {w : ℕ} {g : ReadRequest → ReadResult × List ℕ} {l l' : ReaderList H}
      (p : Processed w g l l') where
    -- What still waits begins at `w` or after.
    pub Processed-late : (x : ReadRequest) → Mem x (items l'.heap) → w ≤ x.begin
    Processed-late =
        late_of_before w (items l'.heap) (p.keeps (before w) ∙ weigh_late w (items l.heap))

    pub Processed-Distinct : Distinct (items l.heap) → Distinct (items l'.heap)
    Processed-Distinct d k =
        omega (arith, p.keeps (has_id k), from-le w (has_id k) (items l.heap), d k)

    -- A request that has been reached is no longer in the heap.
    pub Processed-gone :
        (x : ReadRequest)
        → Distinct (items l.heap)
        → Mem x (items l.heap)
        → x.begin < w
        → weigh (has_id x.id) (items l'.heap) ≡ 0
    Processed-gone x d m lt =
        let one : reached w x.id x ≡ 1 = rw (ltb-true x.begin w lt) (ground arith) in
        omega (
          arith,
          p.keeps (has_id x.id),
          from-add-reached w x.id (items l.heap),
          mem-le-weigh (reached w x.id) x (items l.heap) m,
          d x.id,
        )

  -- Nothing to do: no request is on top, or one that begins at `w` or after.
  pub idle-Processed :
      (w : ℕ) (g : ReadRequest → ReadResult × List ℕ) (l : ReaderList H)
      → ((f : ReadRequest → ℕ) → weigh f (items l.heap) ≡ weigh (from w f) (items l.heap))
      → Processed w g l l
  idle-Processed w g l keep = record {
    keeps = keep;
    counts = λ c. c;
    answers = λ x m lt e.
        let one : before w x ≡ 1 = rw (ltb-true x.begin w lt) refl in
        absurd (
          omega (
            arith,
            keep (before w),
            weigh_late w (items l.heap),
            mem-le-weigh (before w) x (items l.heap) m,
          ));
    skips_cancelled = λ k e. refl;
    skips_others = λ k e. refl;
  }
