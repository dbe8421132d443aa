-- ===== src/Environ.antt =====
-- Maps from names to values, `std::map<std::string, std::string>` (EnvironMap in src/ProgramExecutor.h), as
-- association lists in which a name stands once.
use Prim.Native.String.{String}
use text.Mathlib.Text.{◌==◌}
use text.Mathlib.TextEquality.{eq_iff}
use ml_gridengine_executor.Base.{◌≡◌, refl, List, [], ◌∷◌, Option, none, some, arith, if◌then◌else◌}

abbrev pub Environ : Type 0
Environ = List (String × String)

unfoldable pub get : String → Environ → Option String
get name [] = none
get name ((other, value) ∷ rest) = if name == other then some value else get name rest

-- `environ[name] = value`
unfoldable pub set : String → String → Environ → Environ
set name value [] = (name, value) ∷ []
set name value ((other, old) ∷ rest) =
    if name == other then (name, value) ∷ rest else (other, old) ∷ set name value rest

-- No name stands twice.
abbrev pub IsMap : Environ → Type 0
IsMap [] = Unit
IsMap ((name, value) ∷ rest) = (get name rest ≡ none) × IsMap rest

pub get-set :
    (name other value : String) (environ : Environ)
    → get name (set other value environ) ≡ (if name == other then some value else get name environ)
unfolding get set
get-set name other value [] = refl
get-set name other value ((key, old) ∷ rest) =
    ground
      (arith, eq_iff name other, eq_iff other key, eq_iff name key, get-set name other value rest)

pub set-IsMap :
    (name value : String) (environ : Environ) → IsMap environ → IsMap (set name value environ)
unfolding get set
set-IsMap name value [] m = (refl, tt)
set-IsMap name value ((key, old) ∷ rest) (fresh, m) = ground (
  arith,
  eq_iff name key,
  eq_iff key name,
  get-set key name value rest,
  set-IsMap name value rest m,
)
