-- ===== src/Tests.antt =====
-- Concrete runs of the code, one for each theorem that has a condition, on a small buffer and on a
-- program that is waited for and killed.
pub mod RingRuns
pub mod BufferRuns
pub mod SystemRuns
pub mod PostRuns
pub mod ThreadRuns
pub mod ProgramRuns
pub mod ExecutorRuns
pub mod AppRuns
pub mod OptionRuns
pub mod PollRuns
pub mod SizeRuns
pub mod LoggerRuns
use ml_gridengine_executor.Base.{
  ℕ, zero, suc, ◌≡◌, refl, arith, List, [], ◌∷◌, length, false, ℤ, pos, negsuc,
}
use ml_gridengine_executor.Ring.{Ring}
use ml_gridengine_executor.Ring.Contents.{IsValid}
use ml_gridengine_executor.Ring.Expand.{Allocates}
use ml_gridengine_executor.Heap.{ReadRequest, list_heap}
use ml_gridengine_executor.Readers.{ReaderList, waiting}
use ml_gridengine_executor.OutputBuffer.{OutputBuffer, new_ring, enqueue}
use ml_gridengine_executor.OutputBuffer.New.{new_ring-Keeps}
use ml_gridengine_executor.OutputBuffer.Spec.{Keeps, Represents}
use ml_gridengine_executor.OutputBuffer.Wait.{enqueue-Represents}
use mathlib.Core.List.{not-mem-nil}

abbrev pub zeros : ℕ → List ℕ
zeros zero = []
zeros (suc n) = 0 ∷ zeros n

pub zeros-Allocates : Allocates zeros
zeros-Allocates zero = refl
zeros-Allocates (suc n) = omega (arith, zeros-Allocates n)

-- Four of at most six bytes, of which three are held; they go round the end.
abbrev pub turned : Ring
turned = record {
  buffer = 3 ∷ 9 ∷ 1 ∷ 2 ∷ 9 ∷ 9 ∷ [];
  capacity = 4;
  max_capacity = 6;
  size = 3;
  head = 2;
  written_bytes = 10;
}

pub turned-IsValid : IsValid turned
turned-IsValid = omega arith

-- A new buffer of at most four bytes.
abbrev pub fresh : OutputBuffer list_heap
fresh = record {
  ring = new_ring zeros 4 2;
  is_closed = false;
  readers = record { heap = []; heap_size = 0; active_count = 0; requests = λ _. waiting };
}

pub fresh-Keeps : Keeps fresh.ring []
fresh-Keeps = new_ring-Keeps zeros 4 2 zeros-Allocates (omega arith) (omega arith) (omega arith)

pub fresh-Represents : Represents list_heap fresh []
fresh-Represents = record {
  keeps = fresh-Keeps;
  counts = record { sized = refl; counted = refl; small = omega arith };
  distinct = λ k. omega arith;
  late = λ x m. absurd (not-mem-nil m);
}

-- A reader that waits for two bytes from position 1 on.
abbrev pub waiter : ReadRequest
waiter = record { id = 7; begin = 1; count = 2 }

abbrev pub asked : OutputBuffer list_heap
asked = enqueue list_heap fresh waiter

pub asked-Represents : Represents list_heap asked []
asked-Represents =
    enqueue-Represents list_heap fresh [] waiter fresh-Represents (omega arith) refl (omega arith)

-- A full buffer of four bytes, after six were written.
abbrev pub full : OutputBuffer list_heap
full = record fresh {
  ring = record {
    buffer = 3 ∷ 4 ∷ 1 ∷ 2 ∷ [];
    capacity = 4;
    max_capacity = 4;
    size = 4;
    head = 2;
    written_bytes = 6;
  };
}

abbrev pub six : List ℕ
six = 8 ∷ 9 ∷ 1 ∷ 2 ∷ 3 ∷ 4 ∷ []

pub full-Keeps : Keeps full.ring six
full-Keeps = record { valid = omega arith; last = refl; written = refl; in_range = omega arith }
