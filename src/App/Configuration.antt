-- ===== src/App/Configuration.antt =====
-- What `runApp` (src/main.cpp) logs of its configuration. How a size is printed, and the order in which
-- std::map keeps its pairs, are parameters.
use Prim.Native.String.{String}
use Prim.Native.String as Texts
use mathlib.Core.List.{Mem, mem-cons, mem-append_left, mem-append_right}
use mathlib.Core.Logic.Or
use text.Mathlib.Text.{◌==◌}
use ml_gridengine_executor.Base.{
  ℕ, ◌≡◌, refl, List, [], ◌∷◌, ◌++◌, Bool, true, false, if◌then◌else◌,
}
use ml_gridengine_executor.Options.{Settings}

abbrev yes_or_no : Bool → String
yes_or_no true = "yes"
yes_or_no false = "no"

-- A line for a setting that may be empty.
abbrev given : String → String → List String
given label value = if value == "" then [] else Texts.◌++◌ label value ∷ []

-- `Poco::cat("\n  ", ...)`
unfoldable pub cat : List String → String
cat [] = ""
cat (text ∷ []) = text
cat (text ∷ next ∷ more) = Texts.◌++◌ text (Texts.◌++◌ "\n  " (cat (next ∷ more)))

abbrev written : List (String × String) → List String
written [] = []
written ((name, value) ∷ environ) = Texts.◌++◌ name (Texts.◌++◌ "=" value) ∷ written environ

unfoldable pub environment : List (String × String) → List String
unfolding cat
environment [] = []
environment (variable ∷ environ) =
    Texts.◌++◌ "Environmental variables:\n  " (cat (written (variable ∷ environ))) ∷ []

-- The messages, all of the level INFO.
unfoldable pub configuration :
    (ℕ → String)
    → (List (String × String) → List (String × String))
    → String
    → String
    → Settings
    → List String
unfolding cat environment
configuration printed_size in_order shell host_name s =
    "ML GridEngine Executor 0.1"
    ∷ Texts.◌++◌ "Shell: " shell
    ∷ Texts.◌++◌ "Hostname: " host_name
    ∷ Texts.◌++◌ "Wait termination: " (yes_or_no s.no_exit)
    ∷ Texts.◌++◌ "Watch generated files: " (yes_or_no s.watch_generated)
    ∷ Texts.◌++◌ "Memory buffer size: " (printed_size s.buffer_size)
    ∷ Texts.◌++◌ "Working dir: " s.work_dir
    ∷ (given "Callback API: " s.callback_api
        ++ (given "Callback Token: " s.callback_token
            ++ (given "Output file: " s.output_file
                ++ (given "Status file: " s.status_file
                    ++ (given "Run-after command: " s.run_after
                        ++ (Texts.◌++◌ "Program arguments:\n  " (cat s.args)
                            ∷ environment (in_order s.environ)))))))

given-cons :
    (label value : String) → (value == "") ≡ false → given label value ≡ Texts.◌++◌ label value ∷ []
given-cons label value e = rw e refl

after : {a x : String} {xs : List String} → Mem a xs → Mem a (x ∷ xs)
after m = mem-cons.1 (Or.inr m)

-- A token that is set is logged as it is.
configuration_token :
    (printed_size : ℕ → String) (in_order : List (String × String) → List (String × String))
    (shell host_name : String) (s : Settings)
    → (s.callback_token == "") ≡ false
    → Mem
        (Texts.◌++◌ "Callback Token: " s.callback_token)
        (configuration printed_size in_order shell host_name s)
unfolding configuration
configuration_token printed_size in_order shell host_name s e = after (
    after (
      after (
        after (
          after (
            after (
              after (
                mem-append_right (given "Callback API: " s.callback_api) (
                  mem-append_left {s = given "Callback Token: " s.callback_token} _ (
                    rw (given-cons "Callback Token: " s.callback_token e)
                      (mem-cons.1 (Or.inl refl)))))))))))
