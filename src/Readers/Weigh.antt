-- ===== src/Readers/Weigh.antt =====
-- The requests of a heap (src/OutputBuffer.cpp, ReaderList) as a multiset: the sum of any weight over
-- them does not depend on the order in which the heap keeps them.
use mathlib.Core.Logic.{∥∥₁_elim}
use mathlib.Core.Logic.Or
use mathlib.Core.List.{Mem, Perm, Permᴰ, mem-cons, not-mem-nil}
use native.Mathlib.Bridge.{le_prop}
use native.Mathlib.Nat.{ℕ_set}
use ml_gridengine_executor.Base.{
  ℕ, suc, ◌+◌, ◌≤◌, ◌≡◌, refl, ap, ◌∙◌, none, some, List, [], ◌∷◌, arith, ltb, ◌==◌, if◌then◌else◌,
  length, ltb-false, ltb_cases, inl, inr,
}
use ml_gridengine_executor.Heap.{ReadRequest, PairingHeap}

abbrev pub weigh : (ReadRequest → ℕ) → List ReadRequest → ℕ
weigh f [] = 0
weigh f (x ∷ xs) = f x + weigh f xs

-- How often the request `k` is in a list.
abbrev pub has_id : ℕ → ReadRequest → ℕ
has_id k x = if x.id == k then 1 else 0

-- A weight that leaves out the requests that begin before `w`.
abbrev pub from : ℕ → (ReadRequest → ℕ) → ReadRequest → ℕ
from w f x = if ltb x.begin w then 0 else f x

-- No request is twice in a list.
abbrev pub Distinct : List ReadRequest → Type 0
Distinct xs = (k : ℕ) → weigh (has_id k) xs ≤ 1

weigh-permᴰ :
    (f : ReadRequest → ℕ) {xs ys : List ReadRequest} → Permᴰ xs ys → weigh f xs ≡ weigh f ys
weigh-permᴰ f Permᴰ.nil = refl
weigh-permᴰ f (Permᴰ.cons e d) = omega (arith, ap f e, weigh-permᴰ f d)
weigh-permᴰ f (Permᴰ.swap e e') = omega (arith, ap f e, ap f e')
weigh-permᴰ f (Permᴰ.trans d d') = weigh-permᴰ f d ∙ weigh-permᴰ f d'

pub weigh-perm :
    (f : ReadRequest → ℕ) {xs ys : List ReadRequest} → Perm xs ys → weigh f xs ≡ weigh f ys
weigh-perm f p = ∥∥₁_elim p (ℕ_set _ _) (λ d. weigh-permᴰ f d)

pub length-weigh : (xs : List ReadRequest) → length xs ≡ weigh (λ _. 1) xs
length-weigh [] = refl
length-weigh (x ∷ xs) = omega (arith, length-weigh xs)

pub length-perm : {xs ys : List ReadRequest} → Perm xs ys → length xs ≡ length ys
length-perm {xs} {ys} p = omega (arith, length-weigh xs, length-weigh ys, weigh-perm (λ _. 1) p)

pub mem-le-weigh :
    (f : ReadRequest → ℕ) (x : ReadRequest) (xs : List ReadRequest) → Mem x xs → f x ≤ weigh f xs
mem-le-weigh f x [] m = absurd (not-mem-nil m)
mem-le-weigh f x (y ∷ ys) m =
    Or.elim le_prop (mem-cons.0 m) (λ e. omega (arith, ap f e))
      (λ n. omega (arith, mem-le-weigh f x ys n))

pub weigh_ext :
    (f g : ReadRequest → ℕ) (xs : List ReadRequest)
    → ((x : ReadRequest) → Mem x xs → f x ≡ g x)
    → weigh f xs ≡ weigh g xs
weigh_ext f g [] h = refl
weigh_ext f g (x ∷ xs) h =
    omega
      (arith, h x (mem-cons.1 (Or.inl refl)), weigh_ext f g xs (λ y m. h y (mem-cons.1 (Or.inr m))))

abbrev pub before : ℕ → ReadRequest → ℕ
before w x = if ltb x.begin w then 1 else 0

-- That all requests begin at `w` or after, as a weight.
pub before-zero :
    (w : ℕ) (xs : List ReadRequest)
    → ((x : ReadRequest) → Mem x xs → w ≤ x.begin)
    → weigh (before w) xs ≡ 0
before-zero w [] h = refl
before-zero w (x ∷ xs) h =
    let le : w ≤ x.begin = h x (mem-cons.1 (Or.inl refl)) in
    rw (ltb-false x.begin w le)
      (omega (arith, before-zero w xs (λ y m. h y (mem-cons.1 (Or.inr m)))))

pub late_of_before :
    (w : ℕ) (xs : List ReadRequest)
    → weigh (before w) xs ≡ 0
    → (x : ReadRequest) → Mem x xs
    → w ≤ x.begin
late_of_before w xs e x m = elim (ltb_cases x.begin w) [
  | inr (t, ge) ↦ ge
  | inl (t, lt) ↦
      let one : before w x ≡ 1 = rw t refl in absurd (omega (arith, mem-le-weigh (before w) x xs m))
]

module _ (H : PairingHeap) where
  open H use {Heap, push, top, pop, items}

  pub weigh-push :
      (f : ReadRequest → ℕ) (x : ReadRequest) (h : Heap)
      → weigh f (items (push x h)) ≡ f x + weigh f (items h)
  weigh-push f x h = weigh-perm f (H.items-push x h)

  pub weigh-pop :
      (f : ReadRequest → ℕ) (x : ReadRequest) (h : Heap)
      → top h ≡ some x
      → weigh f (items h) ≡ f x + weigh f (items (pop h))
  weigh-pop f x h e = weigh-perm f (H.top_some h x e)

  pub length-pop :
      (x : ReadRequest) (h : Heap)
      → top h ≡ some x
      → length (items h) ≡ suc (length (items (pop h)))
  length-pop x h e = length-perm (H.top_some h x e)

  -- When the request on top begins at `w` or after, so do all.
  pub weigh-from :
      (f : ReadRequest → ℕ) (w : ℕ) (x : ReadRequest) (h : Heap)
      → top h ≡ some x
      → w ≤ x.begin
      → weigh f (items h) ≡ weigh (from w f) (items h)
  weigh-from f w x h e le =
      weigh_ext f (from w f) (items h)
        λ y m. rw (ltb-false y.begin w (omega (arith, H.top_least h x y e m))) refl

  pub weigh-none : (f : ReadRequest → ℕ) (h : Heap) → top h ≡ none → weigh f (items h) ≡ 0
  weigh-none f h e = ap (weigh f) (H.top_none h e)
