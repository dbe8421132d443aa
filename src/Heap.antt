-- ===== src/Heap.antt =====
-- The priority queue of waiting readers. The executor takes it from Boost, `pairing_heap` with
-- ReaderOrdering (src/OutputBuffer.cpp): an interface of operations and of the laws that they are
-- documented to obey, and a list as an instance.
use mathlib.Core.List.{Mem, Perm, mem-cons, not-mem-nil}
use mathlib.Core.List.Perm
use mathlib.Core.Logic.Or
use native.Mathlib.Bridge.{le_prop}
use ml_gridengine_executor.Base.{
  ℕ, ◌≤◌, ◌≡◌, refl, subst, List, [], ◌∷◌, Option, none, some, arith, leb, leb_cases, inl, inr,
  if◌then◌else◌,
}

-- The fields of a `ReadRequest` that never change. The others are kept apart, by the request's
-- identity (see Readers).
pub record ReadRequest : Type 0 where
  pub id : ℕ
  pub begin : ℕ
  pub count : ℕ

-- ReaderOrdering puts the request with the smallest `begin` on top.
pub record PairingHeap : Type 1 where
  pub Heap : Type 0
  pub empty : Heap
  pub push : ReadRequest → Heap → Heap
  pub top : Heap → Option ReadRequest
  pub pop : Heap → Heap
  pub items : Heap → List ReadRequest
  pub items-empty : items empty ≡ []
  pub items-push : (x : ReadRequest) (h : Heap) → Perm (items (push x h)) (x ∷ items h)
  pub top_none : (h : Heap) → top h ≡ none → items h ≡ []
  pub top_some : (h : Heap) (x : ReadRequest) → top h ≡ some x → Perm (items h) (x ∷ items (pop h))
  pub top_least :
      (h : Heap) (x y : ReadRequest) → top h ≡ some x → Mem y (items h) → x.begin ≤ y.begin

-- A list whose top is found by going through it.
least : ReadRequest → List ReadRequest → ReadRequest
least x [] = x
least x (y ∷ ys) = least (if leb x.begin y.begin then x else y) ys

others : ReadRequest → List ReadRequest → List ReadRequest
others x [] = []
others x (y ∷ ys) =
    (if leb x.begin y.begin then y else x) ∷ others (if leb x.begin y.begin then x else y) ys

unfoldable pub list_top : List ReadRequest → Option ReadRequest
unfolding least
list_top [] = none
list_top (x ∷ xs) = some (least x xs)

unfoldable pub list_pop : List ReadRequest → List ReadRequest
unfolding others
list_pop [] = []
list_pop (x ∷ xs) = others x xs

least-perm : (x : ReadRequest) (xs : List ReadRequest) → Perm (x ∷ xs) (least x xs ∷ others x xs)
unfolding least others
least-perm x [] = Perm.refl (x ∷ [])
least-perm x (y ∷ ys) = elim (leb_cases x.begin y.begin) [
  | inl (e, le) ↦ rw e (
      Perm.trans (Perm.swap y x ys)
        (Perm.trans (Perm.cons y (least-perm x ys)) (Perm.swap (least x ys) y (others x ys))))
  | inr (e, gt) ↦
      rw e (Perm.trans (Perm.cons x (least-perm y ys)) (Perm.swap (least y ys) x (others y ys)))
]

least-le : (x : ReadRequest) (xs : List ReadRequest) → (least x xs).begin ≤ x.begin
unfolding least
least-le x [] = omega arith
least-le x (y ∷ ys) = elim (leb_cases x.begin y.begin) [
  | inl (e, le) ↦ rw (e, least) (least-le x ys)
  | inr (e, gt) ↦ rw (e, least) (omega (arith, least-le y ys))
]

least-le_mem :
    (x y : ReadRequest) (xs : List ReadRequest) → Mem y (x ∷ xs) → (least x xs).begin ≤ y.begin
unfolding least
least-le_mem x y [] m =
    Or.elim le_prop (mem-cons.0 m) (λ e. rw e (least-le x [])) (λ n. absurd (not-mem-nil n))
least-le_mem x y (z ∷ zs) m =
    Or.elim le_prop (mem-cons.0 m) (λ e. rw e (least-le x (z ∷ zs)))
      (λ n. elim (leb_cases x.begin z.begin) [
        | inr (e, gt) ↦ rw (e, least) (least-le_mem z y zs n)
        | inl (e, le) ↦
            rw (e, least)
              (Or.elim le_prop (mem-cons.0 n) (λ eq. rw eq (omega (arith, least-le x zs)))
                (λ k. least-le_mem x y zs (mem-cons.1 (Or.inr k))))
      ])

pub list_top_some :
    (h : List ReadRequest) (x : ReadRequest) → list_top h ≡ some x → Perm h (x ∷ list_pop h)
unfolding list_top list_pop
list_top_some [] x e = cc
list_top_some (y ∷ ys) x e =
    let eq : least y ys ≡ x = cc in
    subst (λ k. Perm (y ∷ ys) (k ∷ others y ys)) eq (least-perm y ys)

pub list_top-none : (h : List ReadRequest) → list_top h ≡ none → h ≡ []
unfolding list_top
list_top-none [] e = refl
list_top-none (y ∷ ys) e = cc

pub list_top_least :
    (h : List ReadRequest) (x y : ReadRequest) → list_top h ≡ some x → Mem y h → x.begin ≤ y.begin
unfolding list_top
list_top_least [] x y e m = cc
list_top_least (z ∷ zs) x y e m =
    let eq : least z zs ≡ x = cc in subst (λ k. k.begin ≤ y.begin) eq (least-le_mem z y zs m)

-- A heap that obeys the laws.
abbrev pub list_heap : PairingHeap
list_heap = record {
  Heap = List ReadRequest;
  empty = [];
  push = λ x h. x ∷ h;
  top = list_top;
  pop = list_pop;
  items = λ h. h;
  items-empty = refl;
  items-push = λ x h. Perm.refl (x ∷ h);
  top_none = list_top-none;
  top_some = list_top_some;
  top_least = list_top_least;
}
