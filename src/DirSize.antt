-- ===== src/DirSize.antt =====
-- `Utils::calculateDirSize` (src/Utils.cpp): the size of a directory tree. The file system is a tree
-- of files, without cycles of links, with what Poco says of each; an exception of Poco is an error.
pub mod Sum
use ml_gridengine_executor.Base.{
  ℕ, suc, ◌+◌, List, [], ◌∷◌, Bool, true, false, Option, none, some, if◌then◌else◌, ◌>>=◌, add64,
}

mutual
  -- `own` is what getSize gives, `none` if it throws; the entries are what `list` gives. A `link` is a
  -- symbolic link with what it leads to: isDirectory and getSize, by stat, tell of the latter, and a link
  -- that leads nowhere is unreadable.
  pub data File : Type 0 where
    plain : Option ℕ → File
    directory : Option ℕ → Entries → File
    link : File → File
    unreadable : File

  pub data Entries : Type 0 where
    no_more : Entries
    entry : File → Entries → Entries

-- The handler of the exceptions that are ignored.
abbrev pub or_zero : Option ℕ → Option ℕ
or_zero none = some 0
or_zero (some n) = some n

-- `interrupted` says what the flag is each time it is read; the time is the number of reads so far. A
-- result is the size, `none` for an exception, and the time after the call.
module _ (interrupted : ℕ → Bool) (ignore_errors : Bool) where
  -- `getFsSize`, of what `getFsSizeSubProc` has given
  abbrev pub caught : Option ℕ → Option ℕ
  caught ret = if ignore_errors then or_zero ret else ret

  unfoldable mutual
    -- `getFsSizeSubProc`
    pub get_fs_size_sub_proc : File → ℕ → Option ℕ × ℕ
    get_fs_size_sub_proc (plain own) time = (own, time)
    get_fs_size_sub_proc (directory own entries) time =
        let (ret, later) = entries_size entries 0 time in
        (ret >>= λ n. own >>= λ m. some (add64 n m), later)
    get_fs_size_sub_proc (link f) time = get_fs_size_sub_proc f time
    get_fs_size_sub_proc unreadable time = (none, time)

    -- Its loop over the entries, `ret` being the sum so far.
    pub entries_size : Entries → ℕ → ℕ → Option ℕ × ℕ
    entries_size no_more ret time = (some ret, time)
    entries_size (entry f entries) ret time =
        let (size, later) = get_fs_size_sub_proc f (suc time) in
        elim (interrupted time) [
          | true ↦ (some ret, suc time)
          | false ↦ elim (caught size) [
            | none ↦ (none, later)
            | some n ↦ entries_size entries (add64 ret n) later
          ]
        ]

  -- `calculateDirSize`
  unfoldable pub calculate_dir_size : File → Option ℕ
  unfolding get_fs_size_sub_proc
  calculate_dir_size f = caught (get_fs_size_sub_proc f 0).0
