-- ===== src/WebServer/Kill.antt =====
-- What `KillHandler` (src/WebServerFactory.cpp) answers.
use mathlib.Core.Option
use ml_gridengine_executor.Base.{arith, ◌≡◌, ap, true, some, ℤ, negsuc, ◌⊎◌}
use ml_gridengine_executor.ProgramExecutor.{
  ProgramExecutor, Turn, running, exited, signalled, cannot_kill, is_positive, exit_code,
}
use ml_gridengine_executor.ProgramExecutor.Kill.{is_final, kill-Ends}
use ml_gridengine_executor.WebServer.{
  KillReply, says_exited, says_signalled, says_cannot_kill, kill_reply, handle_kill,
}

-- The answer agrees with the status, but for a program that a signal ended it prints -1.
abbrev pub Answered : KillReply → ProgramExecutor → Type 0
Answered reply e =
    ((e.status ≡ exited) × (reply ≡ says_exited (exit_code e)))
    ⊎ ((e.status ≡ signalled) × (reply ≡ says_signalled (negsuc 0)))
    ⊎ ((e.status ≡ cannot_kill) × (reply ≡ says_cannot_kill))

kill_reply-Answered : (e : ProgramExecutor) → is_final e.status ≡ true → Answered (kill_reply e) e
unfolding kill_reply exit_code
kill_reply-Answered e h = ground arith

-- A request to kill a running program, with positive waits, is answered, and never by an internal
-- error: by EXITED with the exit code, by CANNOT_KILL, or by SIGNALLED, which always comes with -1
-- where the signal is meant.
pub handle_kill-Answered :
    (first second final : ℤ) (t₁ t₂ t₃ : Turn) (e : ProgramExecutor)
    → is_positive first ≡ true
    → is_positive second ≡ true
    → is_positive final ≡ true
    → e.status ≡ running
    → (reply : KillReply) × (e' : ProgramExecutor) × (handle_kill first second final t₁ t₂ t₃ e
        ≡ some (reply, e'))
      × Answered reply e'
unfolding handle_kill
handle_kill-Answered first second final t₁ t₂ t₃ e p q r h =
    let (n, e', eq, f, _) = kill-Ends first second final t₁ t₂ t₃ e p q r h in
    (
      kill_reply e',
      e',
      ap (Option.map (λ (sent, z). (kill_reply z, z))) eq,
      kill_reply-Answered e' f,
    )
