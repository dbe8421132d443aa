-- ===== src/Memory.antt =====
-- Memory as the executor's C++ uses it: a pointer that is read or copied from is the list of the
-- bytes from it to the end of its allocation, so `p + k` is `drop k p`. An access that leaves the
-- allocation, and a remainder by zero, are faults, `none`.
use ml_gridengine_executor.Base.{
  ℕ, ◌+◌, ◌%◌, ◌≤◌, ◌≡◌, refl, List, ◌++◌, Option, none, some, arith, leb, ◌==◌, ◌>>=◌, ◌-◌, min,
  if◌then◌else◌, ltb, length, get_elem?, take, drop, length-append, length-take, length-drop,
  get_elem?-append, get_elem?-take, get_elem?-drop, ap,
}

-- The `n` bytes at the pointer `src`.
unfoldable pub load : List ℕ → ℕ → Option (List ℕ)
load src n = if leb n (length src) then some (take n src) else none

-- `xs` written over the allocation `dst` from offset `off` on.
unfoldable pub splice : List ℕ → ℕ → List ℕ → List ℕ
splice dst off xs = take off dst ++ (xs ++ drop (off + length xs) dst)

-- memcpy(dst + off, src, n)
unfoldable pub memcpy : List ℕ → ℕ → List ℕ → ℕ → Option (List ℕ)
unfolding load
memcpy dst off src n = do
  xs ← load src n
  if leb (off + n) (length dst) then some (splice dst off xs) else none

-- `a % b` on `size_t`, which faults at zero.
unfoldable pub rem : ℕ → ℕ → Option ℕ
rem a b = if b == 0 then none else some (a % b)

pub load-some : (src : List ℕ) (n : ℕ) → n ≤ length src → load src n ≡ some (take n src)
unfolding load
load-some src n h = ground arith

pub length-splice :
    (dst : List ℕ) (off : ℕ) (xs : List ℕ)
    → off + length xs ≤ length dst
    → length (splice dst off xs) ≡ length dst
unfolding splice
length-splice dst off xs h = omega (
  arith,
  length-append (take off dst) (xs ++ drop (off + length xs) dst),
  length-append xs (drop (off + length xs) dst),
  length-take off dst,
  length-drop (off + length xs) dst,
)

get_elem?-three :
    (a b c : List ℕ) (i : ℕ)
    → get_elem? (a ++ (b ++ c)) i ≡ (
        if ltb i (length a)
        then get_elem? a i
        else if ltb i (length a + length b)
        then get_elem? b (i - length a)
        else get_elem? c (i - length a - length b))
get_elem?-three a b c i =
    rw (get_elem?-append a (b ++ c) i, get_elem?-append b c (i - length a)) (ground arith)

-- What an index of the overwritten allocation holds.
pub get_elem?-splice :
    (dst : List ℕ) (off : ℕ) (xs : List ℕ) (i : ℕ)
    → off + length xs ≤ length dst
    → get_elem? (splice dst off xs) i ≡ (
        if ltb i off
        then get_elem? dst i
        else if ltb i (off + length xs)
        then get_elem? xs (i - off)
        else get_elem? dst i)
unfolding splice
get_elem?-splice dst off xs i h =
    rw
      (
        get_elem?-three (take off dst) xs (drop (off + length xs) dst) i,
        get_elem?-take,
        get_elem?-drop,
        length-take,
      )
      (ground (
        arith,
        ap (get_elem? dst) {x = off + length xs + (i - min off (length dst) - length xs)} {y = i},
        ap (get_elem? xs) {x = i - min off (length dst)} {y = i - off},
      ))

pub memcpy-some :
    (dst : List ℕ) (off : ℕ) (src : List ℕ) (n : ℕ)
    → n ≤ length src
    → off + n ≤ length dst
    → memcpy dst off src n ≡ some (splice dst off (take n src))
unfolding memcpy
memcpy-some dst off src n h k = ground arith

pub rem-some : (a b : ℕ) → 1 ≤ b → rem a b ≡ some (a % b)
unfolding rem
rem-some a b h = ground arith

pub rem-zero : (a : ℕ) → rem a 0 ≡ none
unfolding rem
rem-zero a = refl
