-- ===== src/App/Directories.antt =====
-- The directories that `runApp` (src/main.cpp) makes before it starts the program.
pub mod Present
use Prim.Native.String.{String}
use text.Mathlib.Text.{◌==◌}
use ml_gridengine_executor.Base.{List, [], ◌∷◌, ◌++◌, Bool, Option, none, some, if◌then◌else◌}
use ml_gridengine_executor.Result.{throws, system_error}
use ml_gridengine_executor.Options.{Settings}
use ml_gridengine_executor.App.Monad.{Run, ◌>>=◌, done}

-- What the file system answers: whether a path exists once some directories have been made, whether a
-- directory can be made, and what the parent of a path is, `none` if Poco throws.
pub record FileSystem : Type 0 where
  pub exists_after : List String → String → Bool
  pub can_create : String → Bool
  pub parent_of : String → Option String

module _ (fs : FileSystem) where
  -- `createDirectories()`, unless the directory exists. `made` holds the directories made so far.
  unfoldable pub create_missing : String → List String → Run (List String)
  create_missing dir made =
      if fs.exists_after made dir
      then done made
      else if fs.can_create dir
      then done (dir ∷ made)
      else throws system_error

  -- `Utils::makeParents(filePath)` (src/Utils.cpp)
  unfoldable pub make_parents : String → List String → Run (List String)
  unfolding create_missing
  make_parents file_path made = elim (fs.parent_of file_path) [
    | none ↦ done made
    | some parent_dir ↦ create_missing parent_dir made
  ]

  unfoldable pub make_parents_unless_empty : String → List String → Run (List String)
  unfolding make_parents
  make_parents_unless_empty file_path made =
      if file_path == "" then done made else make_parents file_path made

  -- "Prepare for the working directory and other directories"
  unfoldable pub prepare : Settings → Run (List String)
  unfolding make_parents_unless_empty
  prepare s = do
    made ← create_missing s.work_dir []
    made' ← make_parents_unless_empty s.output_file made
    make_parents_unless_empty s.status_file made'
