-- ===== src/Tests/PollRuns.antt =====
-- A request to `OutputPollHandler` (src/WebServerFactory.cpp) for output of which a part is lost.
use Prim.Native.String.{String}
use ml_gridengine_executor.Base.{
  ℕ, ◌≡◌, ◌≤◌, ◌<◌, ◌⊎◌, refl, arith, List, [], ◌∷◌, true, false, Option, some, length, ℤ, pos,
}
use ml_gridengine_executor.Heap.{list_heap, ReadRequest}
use ml_gridengine_executor.OutputBuffer.{OutputBuffer, enqueue, write, wake}
use ml_gridengine_executor.OutputBuffer.Spec.{piece}
use ml_gridengine_executor.WebServer.{
  Query, gone, content, parse_query, replied, waits_for, handle_poll, resume_poll, buffer_size,
}
use ml_gridengine_executor.WebServer.Session.{no_query, handle_poll-pieces}
use ml_gridengine_executor.WebServer.Wakes.{handle_poll-woken}
use ml_gridengine_executor.Result.{ok}
use ml_gridengine_executor.Tests.{
  full, full-Keeps, six, fresh, fresh-Represents, zeros, zeros-Allocates,
}

abbrev one_64 : String → Option ℤ
one_64 s = some (pos 1)

abbrev three : String → Option ℕ
three s = some 3

abbrev parameters : List (String × String)
parameters = ("begin", "1") ∷ ("count", "3") ∷ []

abbrev query : Query
query = record no_query { begin = pos 1; count = 3 }

handle_poll-pieces_example :
    ((body : List ℕ) × (1 < 6)
      × (handle_poll one_64 three list_heap 2 parameters full 9 (full ∷ [])
          ≡ some (replied (content 2 body)))
      × (body ≡ piece six 2 (length body))
      × ((query.count ≡ 0) ⊎ (length body ≤ query.count)))
    ⊎ (((6 ≤ 1)
          × (full.is_closed ≡ true)
          × (handle_poll one_64 three list_heap 2 parameters full 9 (full ∷ [])
              ≡ some (replied gone)))
        ⊎ ((6 ≤ 1)
            × (full.is_closed ≡ false)
            × (handle_poll one_64 three list_heap 2 parameters full 9 (full ∷ [])
                ≡ some (
                    waits_for query
                      (record { id = 9; begin = 1; count = 2 })
                      (enqueue list_heap full (record { id = 9; begin = 1; count = 2 }))))))
unfolding buffer_size
handle_poll-pieces_example =
    handle_poll-pieces one_64 three list_heap 2 parameters full 9 6 six (full ∷ []) query
      (unfold parse_query in refl) (omega arith) (omega arith) (omega arith) full-Keeps
      (6, full-Keeps, tt)

abbrev from_one : ReadRequest
from_one = record { id = 9; begin = 1; count = 2 }

handle_poll-woken_example :
    (b' : OutputBuffer list_heap) × (body : List ℕ) × (handle_poll one_64 three list_heap 2
        parameters fresh 9 []
      ≡ some (waits_for query from_one (enqueue list_heap fresh from_one)))
    × (write list_heap zeros (enqueue list_heap fresh from_one) (8 ∷ 9 ∷ 7 ∷ []) ≡ ok b')
    × ((b'.readers.requests 9).signalled ≡ true)
    × (resume_poll one_64 three list_heap 2 query (wake list_heap b' from_one) []
        ≡ some (replied (content 1 body)))
    × (body ≡ piece (8 ∷ 9 ∷ 7 ∷ []) 1 (length body))
    × ((query.count ≡ 0) ⊎ (length body ≤ query.count))
unfolding buffer_size
handle_poll-woken_example =
    handle_poll-woken one_64 three list_heap zeros 2 parameters fresh 9 3 [] (8 ∷ 9 ∷ 7 ∷ [])
      (8 ∷ 9 ∷ 7 ∷ []) [] query (unfold parse_query in refl) (omega arith) (omega arith)
      zeros-Allocates fresh-Represents refl refl (omega arith) (omega arith) (omega arith) refl
      (omega arith) tt
