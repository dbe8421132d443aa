-- ===== src/Tests/ExecutorRuns.antt =====
-- Runs of the parts around the buffer and the program: the IO thread (src/IOController.cpp), the saving
-- of the output (src/main.cpp), the callbacks (src/PersistAndCallbackManager.cpp), the web server
-- (src/WebServerFactory.cpp), the signal handlers (src/SignalHandler.cpp), and the size of a directory
-- (src/Utils.cpp).
use Prim.Native.String.{String}
use Prim.Native.String as Texts
use ml_gridengine_executor.Base.{
  ◌⊎◌, ◌≢◌, ◌++◌, ℕ, ◌≡◌, refl, arith, List, [], ◌∷◌, Bool, true, false, none, some, ◌==◌, ℤ, pos,
  negsuc,
}
use ml_gridengine_executor.Heap.{list_heap}
use ml_gridengine_executor.OutputBuffer.{OutputBuffer}
use ml_gridengine_executor.OutputBuffer.Spec.{Keeps}
use ml_gridengine_executor.SaveOutput.{discarded, save_loop}
use ml_gridengine_executor.SaveOutput.Loop.{save_loop-take_last}
use ml_gridengine_executor.ProgramExecutor.{ProgramExecutor}
use ml_gridengine_executor.Callback.{Action, Manager, posts, sleeps, post_event, file_generated}
use ml_gridengine_executor.Callback.Retry.{post_event-attempts}
use ml_gridengine_executor.Callback.Report.{file_generated-posting, remembering}
use ml_gridengine_executor.WebServer.{KillReply, handle_kill}
use ml_gridengine_executor.WebServer.Kill.{Answered, handle_kill-Answered}
use ml_gridengine_executor.Signals.{initial, Event, constructs, destroys, receives}
use ml_gridengine_executor.Signals.Notify.{Leaves, run-Leaves}
use ml_gridengine_executor.DirSize.{
  plain, directory, link, unreadable, no_more, entry, calculate_dir_size,
}
use ml_gridengine_executor.DirSize.Sum.{total, calculate_dir_size-total}
use ml_gridengine_executor.Tests.{full, full-Keeps, six}
use ml_gridengine_executor.Watcher.{start, stop, destroy_watcher, deliver}
use ml_gridengine_executor.Watcher.Deliver.{deliver-last_content}
use ml_gridengine_executor.Tests.ProgramRuns.{shell, still, ends}

abbrev full_closed : OutputBuffer list_heap
full_closed = record full { is_closed = true }

full_closed-Keeps : Keeps full_closed.ring six
full_closed-Keeps = full-Keeps

save_loop-take_last_example :
    (save_loop list_heap 7 full_closed 3 0 ≡ some (1 ∷ 2 ∷ 3 ∷ 4 ∷ []))
    × (discarded full_closed ≡ some 2)
save_loop-take_last_example =
    save_loop-take_last list_heap full_closed six 3 full_closed-Keeps refl (omega arith)

handle_kill-Answered_example :
    (reply : KillReply) × (e' : ProgramExecutor) × (handle_kill
        (pos 20)
        (pos 30)
        (pos 60)
        still
        still
        ends
        shell
      ≡ some (reply, e'))
    × Answered reply e'
handle_kill-Answered_example =
    handle_kill-Answered (pos 20) (pos 30) (pos 60) still still ends shell refl refl refl refl

-- The JSON library, printing nothing but texts.
abbrev pub print : List (String × String) → String
print [] = ""
print ((key, value) ∷ rest) = Texts.◌++◌ value (print rest)

abbrev pub number : ℤ → String
number (pos n) = "n"
number (negsuc n) = "-n"

abbrev pub manager : Manager
manager = record {
  max_retry = 5;
  status_file = "status.json";
  uri = "http://localhost/";
  host_name = "host";
  port = pos 80;
  last_posted = λ _. none;
}

-- The third attempt succeeds.
abbrev third : ℕ → Bool
third n = n == 2

post_event-attempts_example :
    post_event print (λ s. s) number (λ s. s) third manager "statusUpdated" "{}"
    ≡ some (
        posts "statusUpdated{}"
        ∷ sleeps 5
        ∷ posts "statusUpdated{}"
        ∷ sleeps 8
        ∷ posts "statusUpdated{}"
        ∷ [])
post_event-attempts_example =
    post_event-attempts print (λ s. s) number (λ s. s) third manager "statusUpdated" "{}"
      (omega arith)

file_generated-posting_example :
    (((manager.uri ≡ "") ⊎ (manager.last_posted "result" ≡ some "{}"))
      → file_generated print (λ s. s) number (λ s. s) (λ _. true) manager "result" "{}"
        ≡ some ([], manager))
    × (manager.uri ≢ ""
        → manager.last_posted "result" ≢ some "{}"
        → file_generated print (λ s. s) number (λ s. s) (λ _. true) manager "result" "{}"
          ≡ some (posts "fileGenerated:result{}" ∷ [], remembering manager "result" "{}"))
file_generated-posting_example =
    file_generated-posting print (λ s. s) number (λ s. s) (λ _. true) manager (omega arith) "result"
      "{}"

abbrev scope : List Event
scope = constructs 1 ∷ constructs 2 ∷ receives 15 ∷ destroys ∷ destroys ∷ []

run-Leaves_example : Leaves scope initial []
run-Leaves_example = run-Leaves scope initial refl refl

calculate_dir_size-total_example :
    calculate_dir_size
      (λ _. false)
      true
      (directory
        (some 4096)
        (entry (plain (some 10)) (entry unreadable (entry (link (plain (some 5))) no_more))))
    ≡ some 4111
unfolding total
calculate_dir_size-total_example =
    calculate_dir_size-total (λ _. false) (λ _. refl)
      (directory (some 4096)
        (entry (plain (some 10)) (entry unreadable (entry (link (plain (some 5))) no_more))))
      (omega arith)

deliver-last_content_example :
    (actions : List Action) × (m' : Manager) × (deliver print
        (λ s. s)
        number
        (λ s. s)
        (λ n i. true)
        0
        (("result", "{1}") ∷ ("config", "{}") ∷ ("result", "{2}") ∷ [])
        manager
      ≡ some (actions, m'))
    × (m'.last_posted "result" ≡ some "{2}")
deliver-last_content_example =
    deliver-last_content print (λ s. s) number (λ s. s) (λ n i. true) 0 "result"
      (("result", "{1}") ∷ ("config", "{}") ∷ ("result", "{2}") ∷ []) manager (omega arith) refl

-- A watcher that is installed is deleted once, by `stop` and not again by the destructor.
stops_once : (stop (start 7 none)).0 ++ (destroy_watcher (stop (start 7 none)).1).0 ≡ 7 ∷ []
unfolding start stop destroy_watcher
stops_once = refl
