-- ===== src/App/Program/Killed.antt =====
-- A program that is waited for when a termination signal comes (src/main.cpp, src/ProgramExecutor.cpp).
use ml_gridengine_executor.Base.{ℕ, ◌≤◌, ◌≡◌, refl, ◌∷◌, [], true, false, none, some, ℤ, pos, take}
use ml_gridengine_executor.Result.{ok}
use ml_gridengine_executor.ProgramExecutor.{
  ProgramExecutor, ProgramStatus, Turn, running, exited, signalled, cannot_kill, not_started,
  is_running, is_not_started, background, wait_started, wait, sigint, sigkill,
}
use ml_gridengine_executor.ProgramExecutor.Kill.{is_final, addressed}
use ml_gridengine_executor.ProgramExecutor.Sealed.{output_over, kill-output_over}
use ml_gridengine_executor.ProgramExecutor.Stop.{Turns, kill_by_environ}
use ml_gridengine_executor.ProgramExecutor.Stop.Ends.{
  kill_by_environ_over, kill_by_environ-Ends, Sensible,
}
use ml_gridengine_executor.App.Monad.{done}
use ml_gridengine_executor.App.Program.{ProgramWorld, on_termination, finish}

final_over :
    (st : ProgramStatus)
    → is_final st ≡ true
    → (is_running st ≡ false) × (is_not_started st ≡ false)
final_over exited h = (refl, refl)
final_over signalled h = (refl, refl)
final_over cannot_kill h = (refl, refl)
final_over running h = absurd (cc h)
final_over not_started h = absurd (cc h)

-- A wait for a program that is over returns at once.
wait_over :
    (e : ProgramExecutor) (timeout : ℤ) (turn : Turn)
    → is_final e.status ≡ true
    → turn.before ≡ none
    → wait e timeout turn ≡ ok (some (true, e))
unfolding wait wait_started background
wait_over e timeout turn h t = rw (t, (final_over e.status h).0, (final_over e.status h).1) refl

-- What the wait and the end of the scope come to.
pub finish-killed :
    (turns : Turns) (w : ProgramWorld) (e : ProgramExecutor)
    → Sensible w.try_parse w.variables
    → w.turn.before ≡ none
    → e.status ≡ running
    → (n : ℕ) × (e' : ProgramExecutor) × (finish (some turns) w e ≡ done e')
      × (is_final e'.status ≡ true)
      × (kill_by_environ w.try_parse w.variables turns e
          ≡ some (take n (addressed e.process_id (sigint ∷ sigint ∷ sigkill ∷ [])), e'))
      × (1 ≤ n)
      × (output_over e' ≡ true)
unfolding finish on_termination
finish-killed turns w e h t r =
    let (n, e', eq, f, one) = kill_by_environ-Ends w.try_parse w.variables turns e h r in
    (
      n,
      e',
      rw
          (
            eq,
            wait_over e' (pos 0) w.turn f t,
            kill_by_environ_over w.try_parse w.variables w.kills e' (final_over e'.status f).0,
          )
          refl,
      f,
      eq,
      one,
      unfold kill_by_environ in
          kill-output_over _ _ _ turns.first turns.second turns.final e e' _ r eq f,
    )
