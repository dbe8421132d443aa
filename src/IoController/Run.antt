-- ===== src/IoController/Run.antt =====
-- The loop of `IOController::_run` (src/IOController.cpp) collects the output of the program.
use ml_gridengine_executor.Base.{
  ◌∙◌, ℕ, ◌+◌, ◌^◌, ◌<◌, ◌≡◌, refl, sym, ap, subst, List, [], ◌∷◌, ◌++◌, false, Option, none, some,
  arith, length, length-append,
}
use ml_gridengine_executor.Result.{ok}
use ml_gridengine_executor.Ring.Expand.{Allocates}
use ml_gridengine_executor.Heap.{PairingHeap}
use ml_gridengine_executor.OutputBuffer.{OutputBuffer}
use ml_gridengine_executor.OutputBuffer.Spec.{Represents}
use ml_gridengine_executor.OutputBuffer.Write.{write-Written}
use ml_gridengine_executor.IoController.{run}

-- The bytes that the reads give before the end of the output, or an error.
abbrev pub received : List (Option (List ℕ)) → List ℕ
received [] = []
received (none ∷ reads) = []
received (some [] ∷ reads) = []
received (some (x ∷ xs) ∷ reads) = (x ∷ xs) ++ received reads

append_assoc : (xs ys zs : List ℕ) → (xs ++ ys) ++ zs ≡ xs ++ (ys ++ zs)
append_assoc [] ys zs = refl
append_assoc (x ∷ xs) ys zs = ap (λ l. x ∷ l) (append_assoc xs ys zs)

append_nil : (xs : List ℕ) → xs ++ [] ≡ xs
append_nil [] = refl
append_nil (x ∷ xs) = ap (λ l. x ∷ l) (append_nil xs)

module _ (H : PairingHeap) (malloc : ℕ → List ℕ) (alloc : Allocates malloc) where
  -- What `run` leaves.
  abbrev pub Collects : List (Option (List ℕ)) → OutputBuffer H → List ℕ → Type 0
  Collects reads b history =
      (b' : OutputBuffer H) × (run H malloc reads b ≡ ok b')
      × Represents H b' history
      × (b'.is_closed ≡ false)
      × (b'.ring.max_capacity ≡ b.ring.max_capacity)

  stays :
      (reads : List (Option (List ℕ))) (b : OutputBuffer H) (history : List ℕ)
      → run H malloc reads b ≡ ok b
      → Represents H b history
      → b.is_closed ≡ false
      → Collects reads b (history ++ [])
  stays reads b history eq rep o =
      (b, eq, subst (Represents H b) (sym (append_nil history)) rep, o, refl)

  -- On an open buffer that represents a history, with a malloc that allocates and fewer than
  -- 2 ^ 63 bytes in all, the loop does not fault or throw. The buffer then represents its history
  -- followed by the bytes that were read, and is still open.
  pub run-Collects :
      (reads : List (Option (List ℕ))) (b : OutputBuffer H) (history : List ℕ)
      → Represents H b history
      → b.is_closed ≡ false
      → length history + length (received reads) < 2 ^ 63
      → Collects reads b (history ++ received reads)
  unfolding run
  run-Collects [] b history rep o h = stays [] b history refl rep o
  run-Collects (none ∷ reads) b history rep o h = stays (none ∷ reads) b history refl rep o
  run-Collects (some [] ∷ reads) b history rep o h = stays (some [] ∷ reads) b history refl rep o
  run-Collects (some (x ∷ xs) ∷ reads) b history rep o h =
      let more : length ((x ∷ xs) ++ received reads) ≡ length (x ∷ xs) + length (received reads) =
        length-append (x ∷ xs) (received reads) in
      let (b₁, eq, w) = write-Written H malloc alloc (x ∷ xs) rep (omega (arith, h, more)) o in
      let (b₂, eq', rep', o', same) =
        run-Collects reads b₁ (history ++ (x ∷ xs)) w.represents w.still_open
          (omega (arith, h, more, length-append history (x ∷ xs))) in
      (
        b₂,
        rw (eq, run) eq',
        subst (Represents H b₂) (append_assoc history (x ∷ xs) (received reads)) rep',
        o',
        same ∙ w.same_max,
      )
