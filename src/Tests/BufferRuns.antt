-- ===== src/Tests/BufferRuns.antt =====
-- Runs of `OutputBuffer` and its list of readers (src/OutputBuffer.cpp).
use mathlib.Core.List.{Mem, mem-cons}
use mathlib.Core.Logic.Or
use ml_gridengine_executor.Base.{ℕ, ◌≡◌, refl, arith, List, [], ◌∷◌, some, negsuc}
use ml_gridengine_executor.Result.{ok, fault}
use ml_gridengine_executor.ReadResult.{result, timeout}
use ml_gridengine_executor.Heap.{list_heap}
use ml_gridengine_executor.Readers.{add}
use ml_gridengine_executor.Readers.Counts.{Counts}
use ml_gridengine_executor.OutputBuffer.{
  OutputBuffer, new_ring, translate_negative_begin, returns, read, write, wake, enqueue, time_out,
  close,
}
use ml_gridengine_executor.OutputBuffer.Spec.{read_spec}
use ml_gridengine_executor.OutputBuffer.Read.{translate_negative_begin-position}
use ml_gridengine_executor.OutputBuffer.Write.{Written, owed, write-Written}
use ml_gridengine_executor.OutputBuffer.Close.{Shut, close-Shut}
use ml_gridengine_executor.OutputBuffer.Wait.{read-Reads}
use ml_gridengine_executor.OutputBuffer.Race.{late_time_out}
use ml_gridengine_executor.OutputBuffer.New.{write_zero_capacity}
use ml_gridengine_executor.Tests.{
  full, full-Keeps, six, zeros, zeros-Allocates, fresh, waiter, asked, asked-Represents,
}

abbrev five_six : List ℕ
five_six = 5 ∷ 6 ∷ []

waiter-Mem : Mem waiter (waiter ∷ [])
waiter-Mem = mem-cons.1 (Or.inl refl)

write-Written_example :
    (b' : OutputBuffer list_heap) × (write list_heap zeros asked five_six ≡ ok b')
    × Written list_heap zeros asked b' [] five_six
unfolding enqueue
write-Written_example =
    write-Written list_heap zeros zeros-Allocates five_six asked-Represents (omega arith) refl

read-Reads_example :
    read list_heap full 7 (negsuc 2) 3 ≡ some (returns (result 3 3) (2 ∷ 3 ∷ 4 ∷ []))
unfolding read_spec
read-Reads_example = read-Reads list_heap full six 7 (negsuc 2) 3 full-Keeps (omega arith)

close-Shut_example :
    (b' : OutputBuffer list_heap) × (close list_heap asked ≡ some b') × Shut list_heap asked b' []
unfolding enqueue
close-Shut_example = close-Shut list_heap asked [] asked-Represents refl

late_time_out_example :
    (b' : OutputBuffer list_heap) × (write list_heap zeros asked five_six ≡ ok b')
    × (wake list_heap b' waiter ≡ owed five_six waiter)
    × ((time_out list_heap b' waiter).0 ≡ timeout)
    × (¬ Counts list_heap (time_out list_heap b' waiter).1.readers)
unfolding enqueue add
late_time_out_example =
    late_time_out list_heap zeros asked [] five_six waiter zeros-Allocates asked-Represents refl
      (omega arith) waiter-Mem refl (omega arith)

translate_negative_begin-position_example : translate_negative_begin 10 (negsuc 2) ≡ 7
translate_negative_begin-position_example =
    translate_negative_begin-position 10 (negsuc 2) (omega arith) (omega arith)

-- `--buffer-size 0`
abbrev no_room : OutputBuffer list_heap
no_room = record fresh { ring = new_ring zeros 0 1024 }

write_zero_capacity_example : write list_heap zeros no_room [] ≡ fault
unfolding new_ring
write_zero_capacity_example = write_zero_capacity list_heap zeros no_room [] refl refl refl
