-- ===== src/ProgramExecutor/Child.antt =====
-- The child process of `start` (src/ProgramExecutor.cpp): what it does between fork and exec.
use Prim.Native.String.{String}
use text.Mathlib.Text.{◌==◌}
use text.Mathlib.TextEquality.{eq_iff}
use ml_gridengine_executor.Base.{
  ℕ, ◌≡◌, refl, ap, sym, ◌∙◌, List, [], ◌∷◌, ◌++◌, Bool, true, false, Option, none, some, arith, ℤ,
  negsuc, if◌then◌else◌, Bool-cases, inl, inr, ◌⊎◌,
}
use ml_gridengine_executor.Environ.{Environ, get, IsMap}
use ml_gridengine_executor.ProgramExecutor.{ProgramExecutor}

-- The process environment: what getenv gives.
abbrev pub Variables : Type 0
Variables = String → Option String

-- `Poco::Environment::set(name, value)`
abbrev pub set_variable : Variables → String → String → Variables
set_variable vars name value other = if other == name then some value else vars other

-- `Poco::Environment::has(name)`
abbrev pub has_variable : Variables → String → Bool
has_variable vars name = elim (vars name) [ none ↦ false | some value ↦ true ]

-- `getDefaultEnvironMap()`
abbrev pub default_environ : Environ
default_environ = ("PYTHONUNBUFFERED", "1") ∷ []

-- The loop over the default variables.
unfoldable pub set_defaults : Environ → Variables → Variables
set_defaults [] vars = vars
set_defaults ((name, value) ∷ rest) vars =
    set_defaults rest (if has_variable vars name then vars else set_variable vars name value)

-- The loop over `_environ`.
unfoldable pub set_all : Environ → Variables → Variables
set_all [] vars = vars
set_all ((name, value) ∷ rest) vars = set_all rest (set_variable vars name value)

-- The environment in which the program is launched.
unfoldable pub child_variables : Environ → Variables → Variables
unfolding set_defaults set_all
child_variables environ inherited = set_all environ (set_defaults default_environ inherited)

-- What the child asks of the operating system.
pub data Call : Type 0 where
  closes : ℕ → Call
  dup2s : ℕ → ℕ → Call
  chdirs : String → Call
  exits : ℤ → Call
  execs : List String → Variables → Call

-- `close(pfd[0])`, and the two calls of dup2
unfoldable pub redirect : Bool → ℕ × ℕ → List Call
redirect capture (read_end, write_end) =
    if capture then closes read_end ∷ dup2s write_end 1 ∷ dup2s write_end 2 ∷ [] else []

-- The calls of the child; `chdir_ok` and `exec_ok` tell whether chdir and execvp succeed.
unfoldable pub child : ProgramExecutor → ℕ × ℕ → Variables → Bool → Bool → List Call
unfolding redirect child_variables
child e pipe inherited chdir_ok exec_ok =
    let launch : List Call =
      execs e.args (child_variables e.environ inherited)
      ∷ (if exec_ok then [] else exits (negsuc 0) ∷ []) in
    redirect e.capture_output pipe
    ++ (if e.work_dir == ""
        then launch
        else chdirs e.work_dir ∷ (if chdir_ok then launch else exits (negsuc 0) ∷ []))

-- Two ways to say what a variable is: the first one if it is there, else the second.
abbrev pub or_else : Option String → Option String → Option String
or_else none other = other
or_else (some value) other = some value

set_all-get :
    (environ : Environ) (vars : Variables) (name : String)
    → IsMap environ
    → set_all environ vars name ≡ or_else (get name environ) (vars name)
unfolding set_all get
set_all-get [] vars name m = refl
set_all-get ((key, value) ∷ rest) vars name (fresh, m) =
    set_all-get rest (set_variable vars key value) name m ∙ elim (Bool-cases (name == key)) [
      | inr e ↦ rw e refl
      | inl e ↦
          let same : name ≡ key = ground (arith, eq_iff name key, e) in
          rw e (
            ap (λ k. or_else (get k rest) (some value)) same
            ∙ ap (λ o. or_else o (some value)) fresh)
    ]

-- Whether a variable is set, as a case of what it is.
has_variable-cases :
    (vars : Variables) (key : String)
    → ((has_variable vars key ≡ false) × (vars key ≡ none))
      ⊎ ((value : String) × (has_variable vars key ≡ true) × (vars key ≡ some value))
has_variable-cases vars key = cases (vars key)
  where
    cases :
        (o : Option String)
        → ((elim o [ none ↦ false | some value ↦ true ] ≡ false) × (o ≡ none))
          ⊎ ((value : String) × (elim o [ none ↦ false | some v ↦ true ] ≡ true) × (o ≡ some value))
    cases none = inl (refl, refl)
    cases (some value) = inr (value, refl, refl)

set_defaults-get :
    (defaults : Environ) (vars : Variables) (name : String)
    → IsMap defaults
    → set_defaults defaults vars name ≡ or_else (vars name) (get name defaults)
unfolding set_defaults get
set_defaults-get [] vars name m = ground arith
set_defaults-get ((key, value) ∷ rest) vars name (fresh, m) = elim (has_variable-cases vars key) [
  | inl (c, unset) ↦ rw c (
      set_defaults-get rest (set_variable vars key value) name m ∙ elim (Bool-cases (name == key)) [
        | inr e ↦ rw e refl
        | inl e ↦
            let same : name ≡ key = ground (arith, eq_iff name key, e) in
            rw e (sym (ap (λ o. or_else o (some value)) (ap vars same ∙ unset)))
      ])
  | inr (old, c, isset) ↦ rw c (
      set_defaults-get rest vars name m ∙ elim (Bool-cases (name == key)) [
        | inr e ↦ rw e refl
        | inl e ↦
            let same : name ≡ key = ground (arith, eq_iff name key, e) in
            let here : vars name ≡ some old = ap vars same ∙ isset in
            rw e (
              ap (λ o. or_else o (get name rest)) here
              ∙ sym (ap (λ o. or_else o (some value)) here))
      ])
]

-- A variable of the program has the value given for it, if any; else the one that the executor has
-- itself, if any; else its default.
pub child_variables-or_else :
    (environ : Environ) (inherited : Variables) (name : String)
    → IsMap environ
    → child_variables environ inherited name
      ≡ or_else (get name environ) (or_else (inherited name) (get name default_environ))
unfolding child_variables
child_variables-or_else environ inherited name m =
    set_all-get environ (set_defaults default_environ inherited) name m
    ∙ ap (or_else (get name environ))
        (set_defaults-get default_environ inherited name (unfold get in refl, tt))
