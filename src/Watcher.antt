-- ===== src/Watcher.antt =====
-- `GeneratedFilesWatcher` (src/GeneratedFilesWatcher.h, src/GeneratedFilesWatcher.cpp): the files that
-- the program generates in its working directory, and the calls of the handler for them. How a file is
-- loaded is a parameter: its JSON, or an exception.
pub mod Deliver
pub mod Keep
use Prim.Native.String.{String}
use text.Mathlib.Text.{◌==◌}
use ml_gridengine_executor.Base.{
  ℕ, suc, Bool, List, [], ◌∷◌, ◌++◌, Option, none, some, if◌then◌else◌, ◌>>=◌, ℤ,
}
use ml_gridengine_executor.Callback.{Action, Manager, file_generated}

-- `_fileNamesToTags`, in the order of a std::map
abbrev pub file_names_to_tags : List (String × String)
file_names_to_tags =
    ("config.defaults.json", "defConfig")
    ∷ ("config.json", "config")
    ∷ ("result.json", "result")
    ∷ ("webui.json", "webUI")
    ∷ []

-- `_fileNamesToTags` at a name
unfoldable pub tag_of : List (String × String) → String → Option String
tag_of [] name = none
tag_of ((file_name, tag) ∷ rest) name = if file_name == name then some tag else tag_of rest name

-- `start()`: `_watcher` is a new watcher of Poco, known by a number.
unfoldable pub start : ℕ → Option ℕ → Option ℕ
start watcher installed = some watcher

-- `stop()`: the watchers that it deletes, and `_watcher` after it.
unfoldable pub stop : Option ℕ → List ℕ × Option ℕ
stop none = ([], none)
stop (some watcher) = (watcher ∷ [], none)

-- The destructor.
unfoldable pub destroy_watcher : Option ℕ → List ℕ × Option ℕ
unfolding stop
destroy_watcher none = ([], none)
destroy_watcher (some watcher) = stop (some watcher)

module _ {ℓ} {Json : Type ℓ} (load_json_file : String → Option Json) where
  -- `_processFile`: the calls of the handler; a file that cannot be loaded is passed over.
  unfoldable pub process_file : String → String → List (String × Json)
  process_file name tag = elim (load_json_file name) [ none ↦ [] | some json ↦ (tag, json) ∷ [] ]

  -- `_onFileUpdated`
  unfoldable pub on_file_updated : String → List (String × Json)
  unfolding process_file tag_of
  on_file_updated name = elim (tag_of file_names_to_tags name) [
    | none ↦ []
    | some tag ↦ process_file name tag
  ]

  -- The loop of `collectAll`; `is_file` tells which names exist as files.
  unfoldable pub collect : (String → Bool) → List (String × String) → List (String × Json)
  unfolding process_file
  collect is_file [] = []
  collect is_file ((name, tag) ∷ rest) =
      (if is_file name then process_file name tag else []) ++ collect is_file rest

  -- `collectAll()`
  unfoldable pub collect_all : (String → Bool) → List (String × Json)
  unfolding collect
  collect_all is_file = collect is_file file_names_to_tags

-- The handler that `runApp` (src/main.cpp) installs calls `fileGenerated`. These are the actions of a
-- series of calls, of which the first is the `n`-th, and the manager after them; `succeeds n i` tells
-- whether the `i`-th attempt of the `n`-th call succeeds.
module _ {ℓ} {Json : Type ℓ} (object : List (String × Json) → Json) (text : String → Json)
    (number : ℤ → Json) (to_string : Json → String) (succeeds : ℕ → ℕ → Bool) where
  unfoldable pub deliver : ℕ → List (String × Json) → Manager → Option (List Action × Manager)
  deliver n [] m = some ([], m)
  deliver n ((tag, doc) ∷ calls) m =
      file_generated object text number to_string (succeeds n) m tag doc >>= λ (actions, m').
      deliver (suc n) calls m' >>= λ (more, m''). some (actions ++ more, m'')
