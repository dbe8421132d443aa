-- ===== src/ProgramExecutor/Stop/Ends.antt =====
-- When `kill()` ends, and what it does to a program that is over (src/ProgramExecutor.cpp).
use Prim.Native.String.{String}
use ml_gridengine_executor.Base.{
  ℕ, ◌≤◌, ◌≡◌, refl, ap, ◌∙◌, [], ◌∷◌, true, false, Option, none, some, take, ℤ, pos, if◌then◌else◌,
  ◌>>=◌,
}
use ml_gridengine_executor.ProgramExecutor.{
  ProgramExecutor, sigint, sigkill, running, is_running, is_positive, kill,
}
use ml_gridengine_executor.ProgramExecutor.Child.{Variables}
use ml_gridengine_executor.ProgramExecutor.Kill.{is_final, addressed, kill-Ends}
use ml_gridengine_executor.ProgramExecutor.Stop.{Turns, try_parse_env, kill_by_environ, destroy}

-- No variable gives a time that is zero or less.
abbrev pub Sensible : (String → Option ℤ) → Variables → Type 0
Sensible try_parse variables =
    (key : String) (seconds : ℤ)
    → (variables key >>= try_parse) ≡ some seconds
    → is_positive seconds ≡ true

module _ (try_parse : String → Option ℤ) (variables : Variables) where
  try_parse_env_positive :
      (key : String) (default_value : ℤ)
      → Sensible try_parse variables
      → is_positive default_value ≡ true
      → is_positive (try_parse_env try_parse variables key default_value) ≡ true
  unfolding try_parse_env
  try_parse_env_positive key default_value h p = cases (variables key >>= try_parse) (h key)
    where
      cases :
          (o : Option ℤ)
          → ((seconds : ℤ) → o ≡ some seconds → is_positive seconds ≡ true)
          → is_positive (elim o [ none ↦ default_value | some seconds ↦ seconds ]) ≡ true
      cases none q = p
      cases (some seconds) q = q seconds refl

  -- `kill()` of a running program ends with a final status.
  pub kill_by_environ-Ends :
      (t : Turns) (e : ProgramExecutor)
      → Sensible try_parse variables
      → e.status ≡ running
      → (n : ℕ) × (e' : ProgramExecutor) × (kill_by_environ try_parse variables t e
          ≡ some (take n (addressed e.process_id (sigint ∷ sigint ∷ sigkill ∷ [])), e'))
        × (is_final e'.status ≡ true)
        × (1 ≤ n)
  unfolding kill_by_environ
  kill_by_environ-Ends t e h r =
      kill-Ends _ _ _ t.first t.second t.final e
        (try_parse_env_positive "ML_GRIDENGINE_KILL_PROGRAM_FIRST_WAIT_SECONDS" (pos 10) h refl)
        (try_parse_env_positive "ML_GRIDENGINE_KILL_PROGRAM_SECOND_WAIT_SECONDS" (pos 20) h refl)
        (try_parse_env_positive "ML_GRIDENGINE_KILL_PROGRAM_FINAL_WAIT_SECONDS" (pos 60) h refl) r

  -- Where the environment gives no time that is zero or less, the destructor of a running program
  -- ends: it leaves a final status, and has sent a non-empty beginning of SIGINT, SIGINT, SIGKILL, each
  -- signal to the process of the program.
  pub destroy-Ends :
      (t : Turns) (e : ProgramExecutor)
      → Sensible try_parse variables
      → e.status ≡ running
      → (n : ℕ) × (e' : ProgramExecutor) × (destroy try_parse variables t e
          ≡ some (take n (addressed e.process_id (sigint ∷ sigint ∷ sigkill ∷ [])), e'))
        × (is_final e'.status ≡ true)
        × (1 ≤ n)
  unfolding destroy
  destroy-Ends t e h r =
      let (n, e', eq, f, one) = kill_by_environ-Ends t e h r in
      (
        n,
        e',
        ap (λ st. if is_running st then kill_by_environ try_parse variables t e else some ([], e)) r
            ∙ eq,
        f,
        one,
      )

  -- `kill()` does nothing to a program that is not running.
  pub kill_by_environ_over :
      (t : Turns) (e : ProgramExecutor)
      → is_running e.status ≡ false
      → kill_by_environ try_parse variables t e ≡ some ([], e)
  unfolding kill_by_environ kill
  kill_by_environ_over t e h = rw (kill_by_environ, kill, h) refl
