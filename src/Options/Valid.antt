-- ===== src/Options/Valid.antt =====
-- What the settings hold after any command line (src/BaseApp.cpp).
use Prim.Native.String.{String}
use text.Mathlib.Text as Text
use ml_gridengine_executor.Base.{
  ◌^◌, ◌<◌, ◌≡◌, ◌⊎◌, inl, inr, refl, subst, List, [], ◌∷◌, Bool, true, false, not, ◌&&◌, Option,
  none, some, arith, ltb_cases, Bool-cases, if◌then◌else◌, ℤ, pos, negsuc,
}
use ml_gridengine_executor.Result.{Result, ok, throws, fault, syntax_error}
use ml_gridengine_executor.Environ.{IsMap, set, set-IsMap}
use ml_gridengine_executor.Floats.{Double, to_size, floor, times_2_pow}
use ml_gridengine_executor.Options.Table.{
  OptionName, help, work_dir, env, no_exit, watch_generated, server_host, server_port, buffer_size,
  callback_api, callback_token, output_file, status_file, run_after, entry_of,
}
use ml_gridengine_executor.Options.{
  Settings, defaults, cut_equals, handle_set_environ, Parsers, to_uint16, unit_power,
  handle_set_server_port, handle_set_buffer_size, handle, accepts, configure, configure_after,
  was_given,
}

-- A predicate on what a call gives, if it gives a value.
abbrev Gives : (Settings → Type 0) → Result Settings → Type 0
Gives P (ok s) = P s
Gives P (throws e) = Unit
Gives P fault = Unit

module _ (matches : String → String → Bool) where
  -- A text that is empty, or that a pattern matches.
  abbrev pub Admitted : String → String → Type 0
  Admitted pattern value = (value ≡ "") ⊎ (matches pattern value ≡ true)

  -- No variable stands twice, the numbers fit into their types, and what must match a pattern does.
  pub record IsValid (s : Settings) : Type 0 where
    pub map : IsMap s.environ
    pub port : s.server_port < 2 ^ 16
    pub size : s.buffer_size < 2 ^ 64
    pub api : Admitted "^http://.+$" s.callback_api
    pub output : Admitted "^.+$" s.output_file
    pub status : Admitted "^.+$" s.status_file
    pub command : Admitted "^.+$" s.run_after

  pub defaults-IsValid : IsValid defaults
  defaults-IsValid = record {
    map = tt;
    port = omega arith;
    size = omega arith;
    api = inl refl;
    output = inl refl;
    status = inl refl;
    command = inl refl;
  }

  -- The parts of validity, put together.
  valid :
      (s : Settings)
      → IsMap s.environ
      → s.server_port < 2 ^ 16
      → s.buffer_size < 2 ^ 64
      → Admitted "^http://.+$" s.callback_api
      → Admitted "^.+$" s.output_file
      → Admitted "^.+$" s.status_file
      → Admitted "^.+$" s.run_after
      → IsValid s
  valid s m p n a o f c = record {
    map = m;
    port = p;
    size = n;
    api = a;
    output = o;
    status = f;
    command = c;
  }

  to_uint16-lt : (z : ℤ) → to_uint16 z < 2 ^ 16
  unfolding to_uint16
  to_uint16-lt (pos n) = omega arith
  to_uint16-lt (negsuc n) = omega arith

  handle_set_environ-IsValid :
      (value : String) (s : Settings) → IsValid s → Gives IsValid (handle_set_environ value s)
  unfolding handle_set_environ
  handle_set_environ-IsValid value s v = cases (cut_equals value)
    where
      cases :
          (cut : Option (String × String))
          → Gives IsValid (elim cut [
            | none ↦ fault
            | some (name, rest) ↦
                if Text.◌==◌ name ""
                then fault
                else ok (record s { environ = set name rest s.environ })
          ])
      cases none = tt
      cases (some (name, rest)) = elim (Bool-cases (Text.◌==◌ name "")) [
        | inl c ↦ rw c tt
        | inr c ↦ rw c (
            valid _ (set-IsMap name rest s.environ v.map) v.port v.size v.api v.output v.status
              v.command)
      ]

  module _ (p : Parsers) where
    handle_set_server_port-IsValid :
        (value : String) (s : Settings)
        → IsValid s
        → Gives IsValid (handle_set_server_port p value s)
    unfolding handle_set_server_port
    handle_set_server_port-IsValid value s v = cases (p.parse value)
      where
        cases :
            (z : Option ℤ)
            → Gives IsValid (elim z [
              | none ↦ throws syntax_error
              | some z ↦ ok (record s { server_port = to_uint16 z })
            ])
        cases none = tt
        cases (some z) = (valid _ v.map (to_uint16-lt z) v.size v.api v.output v.status v.command)

    to_size-lt :
        (d : Double) (s : Settings)
        → IsValid s
        → Gives IsValid
            (elim (to_size d) [ none ↦ fault | some n ↦ ok (record s { buffer_size = n }) ])
    unfolding to_size
    to_size-lt d s v = elim (ltb_cases (floor d) (2 ^ 64)) [
      | inl (c, lt) ↦ rw c (valid _ v.map v.port lt v.api v.output v.status v.command)
      | inr (c, ge) ↦ rw c tt
    ]

    handle_set_buffer_size-IsValid :
        (value : String) (s : Settings)
        → IsValid s
        → Gives IsValid (handle_set_buffer_size p value s)
    unfolding handle_set_buffer_size
    handle_set_buffer_size-IsValid value s v = groups (p.match_size value)
      where
        scales :
            (unit : String) (d : Option Double)
            → Gives IsValid (elim d [
              | none ↦ throws syntax_error
              | some d ↦ elim (to_size (times_2_pow (unit_power p (p.to_upper unit)) d)) [
                | none ↦ fault
                | some n ↦ ok (record s { buffer_size = n })
              ]
            ])
        scales unit none = tt
        scales unit (some d) = to_size-lt (times_2_pow (unit_power p (p.to_upper unit)) d) s v

        groups :
            (m : Option (String × String))
            → Gives IsValid (elim m [
              | none ↦ fault
              | some (number, unit) ↦ elim (p.parse_float number) [
                | none ↦ throws syntax_error
                | some d ↦ elim (to_size (times_2_pow (unit_power p (p.to_upper unit)) d)) [
                  | none ↦ fault
                  | some n ↦ ok (record s { buffer_size = n })
                ]
              ]
            ])
        groups none = tt
        groups (some (number, unit)) = scales unit (p.parse_float number)

    -- Each handler, where the validator of its option has accepted the argument.
    handle-IsValid :
        (option : OptionName) (value : String) (s : Settings)
        → IsValid s
        → accepts p matches (entry_of option).validator value ≡ true
        → Gives IsValid (handle p option value s)
    unfolding handle accepts entry_of
    handle-IsValid help value s v a = valid _ v.map v.port v.size v.api v.output v.status v.command
    handle-IsValid work_dir value s v a =
        valid _ v.map v.port v.size v.api v.output v.status v.command
    handle-IsValid env value s v a = handle_set_environ-IsValid value s v
    handle-IsValid no_exit value s v a =
        valid _ v.map v.port v.size v.api v.output v.status v.command
    handle-IsValid watch_generated value s v a =
        valid _ v.map v.port v.size v.api v.output v.status v.command
    handle-IsValid server_host value s v a =
        valid _ v.map v.port v.size v.api v.output v.status v.command
    handle-IsValid server_port value s v a = handle_set_server_port-IsValid value s v
    handle-IsValid buffer_size value s v a = handle_set_buffer_size-IsValid value s v
    handle-IsValid callback_api value s v a =
        valid _ v.map v.port v.size (inr a) v.output v.status v.command
    handle-IsValid callback_token value s v a =
        valid _ v.map v.port v.size v.api v.output v.status v.command
    handle-IsValid output_file value s v a =
        valid _ v.map v.port v.size v.api (inr a) v.status v.command
    handle-IsValid status_file value s v a =
        valid _ v.map v.port v.size v.api v.output (inr a) v.command
    handle-IsValid run_after value s v a =
        valid _ v.map v.port v.size v.api v.output v.status (inr a)

    either :
        (b : Bool) (r r' : Result Settings)
        → Gives IsValid r
        → Gives IsValid r'
        → Gives IsValid (if b then r else r')
    either true r r' v v' = v
    either false r r' v v' = v'

    handled :
        (r : Result Settings) (rest : Settings → Result Settings)
        → Gives IsValid r
        → ((s' : Settings) → IsValid s' → Gives IsValid (rest s'))
        → Gives IsValid (elim r [
          | ok s' ↦ if s'.help_requested then ok s' else rest s'
          | throws e ↦ throws e
          | fault ↦ fault
        ])
    handled (ok s') rest v' ih = either s'.help_requested (ok s') (rest s') v' (ih s' v')
    handled (throws e) rest v' ih = tt
    handled fault rest v' ih = tt

    configure_after-Gives :
        (given : List OptionName) (options : List (OptionName × String)) (s : Settings)
        → IsValid s
        → Gives IsValid (configure_after p matches given options s)
    unfolding configure_after
    configure_after-Gives given [] s v = v
    configure_after-Gives given ((option, value) ∷ rest) s v =
        either (not (entry_of option).repeatable && was_given option given) _ _ tt
          (elim (Bool-cases (accepts p matches (entry_of option).validator value)) [
            | inr c ↦ rw c tt
            | inl c ↦ rw c (
                handled (handle p option value s) _ (handle-IsValid option value s v c)
                  (λ s' v'. configure_after-Gives (option ∷ given) rest s' v'))
          ])

    -- Whatever the options of a command line are, if they are all handled, the settings are then valid: no
    -- variable stands twice, the port is below 2^16 and the buffer's size below 2^64, and the URI, the
    -- paths and the command are empty or match the patterns of their options.
    pub configure-IsValid :
        (options : List (OptionName × String)) (s : Settings)
        → configure p matches options defaults ≡ ok s
        → IsValid s
    configure-IsValid options s e =
        subst (Gives IsValid) e
          (unfold configure in configure_after-Gives [] options defaults defaults-IsValid)
