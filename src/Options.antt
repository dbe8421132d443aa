-- ===== src/Options.antt =====
-- `BaseApp` (src/BaseApp.h, src/BaseApp.cpp): the settings, the handlers of the options, and `main`.
-- Poco calls the handler of each option with its argument, once the option's validator has accepted
-- it; the matching of regular expressions and the parsing of numbers are parameters.
pub mod Table
pub mod Laws
pub mod BufferSize
pub mod Valid
use Prim.Native.Char.{code}
use Prim.Native.String.{String}
use Prim.Native.String as Texts
use text.Mathlib.Text as Text
use mathlib.Core.Option
use ml_gridengine_executor.Base.{
  ℕ, ◌-◌, ◌*◌, ◌^◌, ◌%◌, List, [], ◌∷◌, Bool, true, false, not, ◌||◌, ◌&&◌, leb, Option, none, some,
  ◌==◌, ltb, if◌then◌else◌, ◌>>=◌, ℤ, pos, negsuc,
}
use ml_gridengine_executor.Result.{Result, ok, throws, fault, invalid_argument, syntax_error}
use ml_gridengine_executor.Environ.{Environ, set}
use ml_gridengine_executor.Options.Table.{
  OptionName, help, work_dir, env, no_exit, watch_generated, server_host, server_port, buffer_size,
  callback_api, callback_token, output_file, status_file, run_after, Validator, any_text, reg_exp,
  int_range, entry_of,
}
use ml_gridengine_executor.Floats.{Double, times_2_pow, to_size}

pub record Settings : Type 0 where
  pub help_requested : Bool
  pub args : List String
  pub work_dir : String
  pub environ : Environ
  pub no_exit : Bool
  pub watch_generated : Bool
  pub server_host : String
  pub server_port : ℕ
  pub buffer_size : ℕ
  pub callback_api : String
  pub callback_token : String
  pub output_file : String
  pub status_file : String
  pub run_after : String

-- The settings before any option; the buffer's size is ML_GRIDENGINE_DEFAULT_BUFFER_SIZE.
abbrev pub defaults : Settings
defaults = record {
  help_requested = false;
  args = [];
  work_dir = "";
  environ = [];
  no_exit = false;
  watch_generated = false;
  server_host = "";
  server_port = 0;
  buffer_size = 4 * 1024 * 1024;
  callback_api = "";
  callback_token = "";
  output_file = "";
  status_file = "";
  run_after = "";
}

-- The text before the first `=` and the text after it: `find` and the two calls of `substr` in
-- `handleSetEnviron`. `none` is a text without `=`.
unfoldable pub cut_equals : String → Option (String × String)
cut_equals String.[] = none
cut_equals (String.◌∷◌ c s) =
    let rest = cut_equals s in
    if code c == b'='
    then some ("", s)
    else Option.map (λ (name, value). (String.◌∷◌ c name, value)) rest

-- `handleSetEnviron`; an assertion fails unless there is a `=` behind a name.
unfoldable pub handle_set_environ : String → Settings → Result Settings
unfolding cut_equals
handle_set_environ value s = elim (cut_equals value) [
  | none ↦ fault
  | some (name, rest) ↦
      if Text.◌==◌ name "" then fault else ok (record s { environ = set name rest s.environ })
]

-- The parsers that the handlers use. `match_size` gives the two groups of BUFFER_SIZE_PATTERN.
pub record Parsers : Type 0 where
  pub parse : String → Option ℤ
  pub parse_float : String → Option Double
  pub match_size : String → Option (String × String)
  pub to_upper : String → String

-- `(Poco::UInt16)z`
unfoldable pub to_uint16 : ℤ → ℕ
to_uint16 (pos n) = n % 2 ^ 16
to_uint16 (negsuc n) = 2 ^ 16 - 1 - n % 2 ^ 16

-- Whether an option of the same name is among those that have been given.
abbrev pub was_given : OptionName → List OptionName → Bool
was_given option [] = false
was_given option (other ∷ given) =
    Text.◌==◌ (entry_of option).full_name (entry_of other).full_name || was_given option given

module _ (p : Parsers) where
  unfoldable pub handle_set_server_port : String → Settings → Result Settings
  unfolding to_uint16
  handle_set_server_port value s = elim (p.parse value) [
    | none ↦ throws syntax_error
    | some z ↦ ok (record s { server_port = to_uint16 z })
  ]

  -- The power of two that a unit stands for.
  unfoldable pub unit_power : String → ℕ
  unit_power unit =
      if Text.◌==◌ unit "M" || Text.◌==◌ unit "MB"
      then 20
      else if Text.◌==◌ unit "K" || Text.◌==◌ unit "KB"
      then 10
      else 0

  unfoldable pub handle_set_buffer_size : String → Settings → Result Settings
  unfolding unit_power
  handle_set_buffer_size value s = elim (p.match_size value) [
    | none ↦ fault
    | some (number, unit) ↦ elim (p.parse_float number) [
      | none ↦ throws syntax_error
      | some d ↦ elim (to_size (times_2_pow (unit_power (p.to_upper unit)) d)) [
        | none ↦ fault
        | some n ↦ ok (record s { buffer_size = n })
      ]
    ]
  ]

  -- The handler of an option.
  unfoldable pub handle : OptionName → String → Settings → Result Settings
  unfolding handle_set_environ handle_set_server_port handle_set_buffer_size
  handle help value s = ok (record s { help_requested = true })
  handle work_dir value s = ok (record s { work_dir = value })
  handle env value s = handle_set_environ value s
  handle no_exit value s = ok (record s { no_exit = true })
  handle watch_generated value s = ok (record s { watch_generated = true })
  handle server_host value s = ok (record s { server_host = value })
  handle server_port value s = handle_set_server_port value s
  handle buffer_size value s = handle_set_buffer_size value s
  handle callback_api value s = ok (record s { callback_api = value })
  handle callback_token value s = ok (record s { callback_token = value })
  handle output_file value s = ok (record s { output_file = value })
  handle status_file value s = ok (record s { status_file = value })
  handle run_after value s = ok (record s { run_after = value })

  -- Whether a validator accepts an argument; `matches` is the matching of regular expressions.
  unfoldable pub accepts : (String → String → Bool) → Validator → String → Bool
  accepts matches any_text value = true
  accepts matches (reg_exp pattern) value = matches pattern value
  accepts matches (int_range low high) value = elim (p.parse value) [
    | none ↦ false
    | some (pos n) ↦ leb low n && leb n high
    | some (negsuc n) ↦ false
  ]

  -- The options of a command line after those that are `given`, in order, as Poco takes them: one that
  -- is not repeatable and has been given already is refused, and the first `help` stops the rest.
  unfoldable pub configure_after :
      (String → String → Bool)
      → List OptionName
      → List (OptionName × String)
      → Settings
      → Result Settings
  unfolding accepts handle
  configure_after matches given [] s = ok s
  configure_after matches given ((option, value) ∷ rest) s =
      if not (entry_of option).repeatable && was_given option given
      then throws invalid_argument
      else if accepts matches (entry_of option).validator value
      then (elim (handle option value s) [
        | ok s' ↦
            if s'.help_requested then ok s' else configure_after matches (option ∷ given) rest s'
        | throws e ↦ throws e
        | fault ↦ fault
      ])
      else throws invalid_argument

  -- The options of a command line.
  unfoldable pub configure :
      (String → String → Bool) → List (OptionName × String) → Settings → Result Settings
  unfolding configure_after
  configure matches options s = configure_after matches [] options s

-- The exit statuses of Poco's Application, and that of `exit(1)`.
abbrev pub exit_ok : ℕ
exit_ok = 0

abbrev pub exit_software : ℕ
exit_software = 70

abbrev pub exit_config : ℕ
exit_config = 78

-- How Poco::Path makes a path absolute, and the current directory.
pub record Paths : Type 0 where
  pub absolute : String → String
  pub current : String

-- The settings with which `runApp` is called.
unfoldable pub with_args : Paths → Settings → List String → Settings
with_args paths s args = record s {
  args = args;
  work_dir = paths.absolute (if Text.◌==◌ s.work_dir "" then paths.current else s.work_dir);
}

-- `BaseApp::main(args)`: the exit status, or `none` for a run that never ends. `run_app` gives what `runApp`
-- returns or throws.
unfoldable pub base_main :
    Paths → (Settings → Result (Option ℕ)) → Settings → List String → Result (Option ℕ)
unfolding with_args
base_main paths run_app s [] = if s.help_requested then ok (some exit_ok) else ok (some 1)
base_main paths run_app s (arg ∷ args) =
    if s.help_requested
    then ok (some exit_ok)
    else (elim (run_app (with_args paths s (arg ∷ args))) [
      | ok none ↦ ok none
      | ok (some status) ↦ ok (some exit_ok)
      | throws e ↦ ok (some exit_software)
      | fault ↦ fault
    ])

-- `main(argc, argv)` (src/main.cpp), after Poco has told the options from the arguments
unfoldable pub main :
    Parsers
    → (String → String → Bool)
    → Paths
    → (Settings → Result (Option ℕ))
    → List (OptionName × String)
    → List String
    → Result (Option ℕ)
unfolding configure base_main
main p matches paths run_app options args = elim (configure p matches options defaults) [
  | ok s ↦ base_main paths run_app s args
  | throws e ↦ ok (some exit_config)
  | fault ↦ fault
]
