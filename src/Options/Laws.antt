-- ===== src/Options/Laws.antt =====
-- What the options `--env` and the exit status of the executor come to (src/BaseApp.cpp, src/main.cpp).
use Prim.Native.Char.{Char, code}
use Prim.Native.String.{String}
use Prim.Native.String as Texts
use text.Mathlib.Text as Text
use text.Mathlib.TextLemmas.{nil-append, cons-append}
use mathlib.Core.Option
use ml_gridengine_executor.Base.{
  ℕ, ◌≡◌, refl, ap, ◌∙◌, List, [], ◌∷◌, Bool, true, false, not, ◌&&◌, Option, none, some, arith,
  ◌==◌, if◌then◌else◌,
}
use ml_gridengine_executor.Result.{Result, ok, throws, fault}
use ml_gridengine_executor.Environ.{Environ, get, set, get-set}
use ml_gridengine_executor.Options.Table.{OptionName, env, entry_of}
use ml_gridengine_executor.Options.{
  Settings, cut_equals, handle_set_environ, Parsers, handle, accepts, configure, configure_after,
  base_main, exit_ok, Paths, with_args,
}

-- A name that can be set: not empty, and without `=`.
abbrev pub lacks_equals : String → Bool
lacks_equals String.[] = true
lacks_equals (String.◌∷◌ c s) = not (code c == b'=') && lacks_equals s

abbrev pub is_name : String → Bool
is_name name = not (Text.◌==◌ name "") && lacks_equals name

-- NAME=VALUE
abbrev pub written : String × String → String
written (name, value) = Texts.◌++◌ name (Texts.◌++◌ "=" value)

abbrev equals : Char
equals = "="

cut_equals-written :
    (name value : String)
    → lacks_equals name ≡ true
    → cut_equals (written (name, value)) ≡ some (name, value)
unfolding cut_equals
cut_equals-written String.[] value h =
    let one : Texts.◌++◌ "=" value ≡ String.◌∷◌ equals value =
      cons-append equals "" value ∙ ap (String.◌∷◌ equals) (nil-append value) in
    ap cut_equals (nil-append (Texts.◌++◌ "=" value) ∙ one)
cut_equals-written (String.◌∷◌ c s) value h =
    ap cut_equals (cons-append c s (Texts.◌++◌ "=" value))
    ∙ step (code c == b'=') h (cut_equals-written s value)
  where
    step :
        (b : Bool)
        → (not b && lacks_equals s) ≡ true
        → (lacks_equals s ≡ true → cut_equals (written (s, value)) ≡ some (s, value))
        → if◌then◌else◌ {A = Option (String × String)} b
            (some ("", Texts.◌++◌ s (Texts.◌++◌ "=" value)))
            (Option.map
              (λ (n, v). (String.◌∷◌ c n, v))
              (cut_equals (Texts.◌++◌ s (Texts.◌++◌ "=" value))))
          ≡ some (String.◌∷◌ c s, value)
    step true e ih = cc e
    step false e ih = rw (ih e) refl

-- `--env NAME=VALUE` sets the variable NAME to VALUE, whatever VALUE is, if NAME is not empty and has no
-- `=` in it.
handle_set_environ-set :
    (name value : String) (s : Settings)
    → is_name name ≡ true
    → handle_set_environ (written (name, value)) s
      ≡ ok (record s { environ = set name value s.environ })
unfolding handle_set_environ
handle_set_environ-set name value s h =
    let filled : Text.◌==◌ name "" ≡ false = ground (arith, h) in
    rw (cut_equals-written name value (ground (arith, h)), handle_set_environ, filled) refl

-- The command line that sets some variables.
abbrev pub env_options : List (String × String) → List (OptionName × String)
env_options [] = []
env_options ((name, value) ∷ rest) = (env, written (name, value)) ∷ env_options rest

abbrev pub set_each : List (String × String) → Environ → Environ
set_each [] environ = environ
set_each ((name, value) ∷ rest) environ = set_each rest (set name value environ)

-- The last value for a name, or `before` if there is none.
abbrev pub last_value : String → List (String × String) → Option String → Option String
last_value name [] before = before
last_value name ((other, value) ∷ rest) before =
    last_value name rest (if Text.◌==◌ name other then some value else before)

get-set_each :
    (name : String) (pairs : List (String × String)) (environ : Environ)
    → get name (set_each pairs environ) ≡ last_value name pairs (get name environ)
get-set_each name [] environ = refl
get-set_each name ((other, value) ∷ rest) environ =
    get-set_each name rest (set other value environ)
    ∙ ap (last_value name rest) (get-set name other value environ)

module _ (p : Parsers) (matches : String → String → Bool) where
  -- Names that can be set, in arguments that the pattern of `--env` matches.
  abbrev pub Settable : List (String × String) → Type 0
  Settable [] = Unit
  Settable ((name, value) ∷ rest) =
      (is_name name ≡ true)
      × (matches "^([^=]+)=(.*)$" (written (name, value)) ≡ true)
      × Settable rest

  configure_after-step :
      (option : OptionName) (value : String) (given : List OptionName)
      (rest : List (OptionName × String)) (s s' : Settings)
      → (entry_of option).repeatable ≡ true
      → accepts p matches (entry_of option).validator value ≡ true
      → handle p option value s ≡ ok s'
      → s'.help_requested ≡ false
      → configure_after p matches given ((option, value) ∷ rest) s
        ≡ configure_after p matches (option ∷ given) rest s'
  unfolding configure_after
  configure_after-step option value given rest s s' r a e h =
      rw (r, a, e)
        (ap (λ b. if b then ok s' else configure_after p matches (option ∷ given) rest s') h)

  configure_after-set_each :
      (pairs : List (String × String)) (given : List OptionName) (s : Settings)
      → s.help_requested ≡ false
      → Settable pairs
      → configure_after p matches given (env_options pairs) s
        ≡ ok (record s { environ = set_each pairs s.environ })
  unfolding configure_after
  configure_after-set_each [] given s h m = refl
  configure_after-set_each ((name, value) ∷ rest) given s h (n, a, m) =
      let s' : Settings = record s { environ = set name value s.environ } in
      configure_after-step env (written (name, value)) given (env_options rest) s s'
        (unfold entry_of in refl) (unfold accepts in unfold entry_of in a)
        (unfold handle in handle_set_environ-set name value s n) h
      ∙ configure_after-set_each rest (env ∷ given) s' h m

  -- A command line of options `--env NAME=VALUE`, whose names are not empty and have no `=`, and which
  -- the option's validator accepts, is read back, however often the option is given: each variable then has the last value given for it,
  -- or the one it had.
  pub configure-last_value :
      (pairs : List (String × String)) (s : Settings) (name : String)
      → s.help_requested ≡ false
      → Settable pairs
      → (s' : Settings) × (configure p matches (env_options pairs) s ≡ ok s')
        × (get name s'.environ ≡ last_value name pairs (get name s.environ))
  configure-last_value pairs s name h m = (
    record s { environ = set_each pairs s.environ },
    unfold configure in configure_after-set_each pairs [] s h m,
    get-set_each name pairs s.environ,
  )

-- The exit status is that of a success whenever `runApp` returns, even where it returns EXIT_SOFTWARE.
pub base_main_ok :
    (paths : Paths) (run_app : Settings → Result (Option ℕ)) (s : Settings) (arg : String)
    (args : List String) (status : ℕ)
    → s.help_requested ≡ false
    → run_app (with_args paths s (arg ∷ args)) ≡ ok (some status)
    → base_main paths run_app s (arg ∷ args) ≡ ok (some exit_ok)
unfolding base_main with_args
base_main_ok paths run_app s arg args status h e =
    let s' : Settings = with_args paths s (arg ∷ args) in
    ap
      (λ b. if b then ok (some exit_ok) else (elim (run_app s') [
        | ok none ↦ ok none
        | ok (some st) ↦ ok (some exit_ok)
        | throws x ↦ ok (some 70)
        | fault ↦ fault
      ]))
      h
    ∙ rw e refl
