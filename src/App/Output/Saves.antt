-- ===== src/App/Output/Saves.antt =====
-- What a run saves of the program's output (src/main.cpp).
use Prim.Native.String.{String}
use text.Mathlib.Text.{◌==◌}
use ml_gridengine_executor.Base.{
  ℕ, suc, ◌-◌, ◌*◌, ◌^◌, ◌≤◌, ◌<◌, ◌≡◌, refl, ap, ◌∙◌, List, [], Bool, true, false, not, ◌||◌,
  Option, none, some, arith, ltb, if◌then◌else◌, length, take_last,
}
use ml_gridengine_executor.Ring.Expand.{Allocates}
use ml_gridengine_executor.Heap.{PairingHeap}
use ml_gridengine_executor.OutputBuffer.{OutputBuffer, new_buffer, new_ring}
use ml_gridengine_executor.OutputBuffer.Spec.{Keeps}
use ml_gridengine_executor.OutputBuffer.New.{new_buffer-Represents}
use ml_gridengine_executor.OutputBuffer.Close.{close-Shut}
use ml_gridengine_executor.IoController.{ends}
use ml_gridengine_executor.IoController.Run.{received, run-Collects}
use ml_gridengine_executor.SaveOutput.{discarded, save_loop}
use ml_gridengine_executor.SaveOutput.Loop.{save_loop-take_last}
use ml_gridengine_executor.App.Monad.{◌>>=◌, done, ended}
use ml_gridengine_executor.App.Output.{Saved, collect, save}

-- The last `size` bytes, and how many are missing, if any are.
abbrev pub kept : ℕ → List ℕ → Saved
kept size output = (
  (if ltb size (length output) then some (length output - size) else none),
  take_last size output,
)

module _ (H : PairingHeap) (malloc : ℕ → List ℕ) where
  -- A closed buffer of `size` bytes with this output.
  abbrev pub Collected : ℕ → List ℕ → OutputBuffer H → Type 0
  Collected size output b =
      Keeps b.ring output × (b.is_closed ≡ true) × (b.ring.max_capacity ≡ size)

  pub collect-Collected :
      (size : ℕ) (reads : List (Option (List ℕ)))
      → Allocates malloc
      → 1 ≤ size
      → size ≤ 2 ^ 63
      → length (received reads) < 2 ^ 63
      → ends reads ≡ true
      → (b : OutputBuffer H) × (collect H malloc size reads ≡ done b)
        × Collected size (received reads) b
  unfolding collect new_buffer new_ring
  collect-Collected size reads alloc pos small range over =
      let (b₁, eq, rep, o, same) =
        run-Collects H malloc alloc reads (new_buffer H malloc size (64 * 1024)) []
          (new_buffer-Represents H malloc size (64 * 1024) alloc pos small (omega arith)) refl
          (omega (arith, range)) in
      let (b₂, eq', sh) = close-Shut H b₁ (received reads) rep o in
      (
        b₂,
        rw (eq, ◌>>=◌, over, eq') refl,
        (sh.represents.keeps, sh.is_shut, ap (λ r. r.max_capacity) sh.same_ring ∙ same),
      )

  pub save-kept :
      (size : ℕ) (output : List ℕ) (output_file : String) (opens : Bool) (b : OutputBuffer H)
      → Collected size output b
      → ((output_file == "") || not opens) ≡ false
      → save H output_file opens b ≡ done (some (kept size output))
  unfolding save
  save-kept size output output_file opens b (k, shut, max) c =
      let (loop, first) = save_loop-take_last H b output 8192 k shut (omega arith) in
      rw c (
        ap (λ n. ended (save_loop H (suc n) b 8192 0) >>= λ bytes. done (some (discarded b, bytes)))
          k.written
        ∙ ap (λ o. ended o >>= λ bytes. done (some (discarded b, bytes))) loop
        ∙ ap (λ d. done (some (d, take_last b.ring.max_capacity output))) first
        ∙ ap (λ m. done (some (kept m output))) max)
