-- ===== src/ProgramExecutor/Threads/Ending.antt =====
-- A call of `kill` comes to its end (src/ProgramExecutor.cpp).
use ml_gridengine_executor.Base.{◌≡◌, Bool, true, false}
use ml_gridengine_executor.ProgramExecutor.{is_running}
use ml_gridengine_executor.ProgramExecutor.Threads.{Attempt, idle, Threads, Step, Reach, here, next}

pub then_Reach :
    {timed : Attempt → Bool} {t u v : Threads} → Step timed t u → Reach timed u v → Reach timed t v
then_Reach step here = next here step
then_Reach step (next r later) = next (then_Reach step r) later

pub and_then :
    {timed : Attempt → Bool} {t u v : Threads} → Reach timed t u → Reach timed u v → Reach timed t v
and_then r here = r
and_then r (next later step) = next (and_then r later) step

module _ (timed : Attempt → Bool) (positive : (a : Attempt) → timed a ≡ true) where
  -- The call of `kill` that is under way can end, and the program does not run any more then.
  abbrev Ends : Threads → Type 0
  Ends t =
      (u : Threads) × Reach timed t u
      × (u.stage ≡ idle)
      × (is_running u.executor.status ≡ false)
      × (u.queued ≡ t.queued)

  -- No call of `kill` is under way or waits, and the program does not run.
  abbrev Quiet : Threads → Type 0
  Quiet t =
      (u : Threads) × Reach timed t u
      × (u.stage ≡ idle)
      × (u.queued ≡ 0)
      × (is_running u.executor.status ≡ false)
