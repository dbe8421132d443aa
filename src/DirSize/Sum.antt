-- ===== src/DirSize/Sum.antt =====
-- What `Utils::calculateDirSize` (src/Utils.cpp) computes when it is not interrupted.
use ml_gridengine_executor.Base.{
  ℕ, suc, ◌+◌, ◌<◌, ◌≡◌, refl, ap, ◌∙◌, Bool, true, false, Option, none, some, arith, ◌>>=◌, add64,
  add64_lem, word,
}
use ml_gridengine_executor.DirSize.{
  File, plain, directory, link, unreadable, Entries, no_more, entry, or_zero, caught,
  get_fs_size_sub_proc, entries_size, calculate_dir_size,
}

-- A directory whose size cannot be had counts for nothing, with all that is in it.
abbrev own_and : Option ℕ → ℕ → ℕ
own_and none below = 0
own_and (some own) below = own + below

unfoldable mutual
  -- The sizes of all that can be read, added up.
  pub total : File → ℕ
  total (plain own) = own_and own 0
  total (directory own entries) = own_and own (total_entries entries)
  total (link f) = total f
  total unreadable = 0

  pub total_entries : Entries → ℕ
  total_entries no_more = 0
  total_entries (entry f entries) = total f + total_entries entries

no_own : (ret : Option ℕ) → or_zero (ret >>= λ n. none) ≡ some 0
no_own none = refl
no_own (some n) = refl

entries_size-entry :
    (interrupted : ℕ → Bool) (f : File) (entries : Entries) (ret time : ℕ) {n : ℕ}
    → interrupted time ≡ false
    → caught interrupted true (get_fs_size_sub_proc interrupted true f (suc time)).0 ≡ some n
    → (entries_size interrupted true (entry f entries) ret time).0
      ≡ (entries_size interrupted true entries
          (add64 ret n)
          (get_fs_size_sub_proc interrupted true f (suc time)).1).0
unfolding get_fs_size_sub_proc entries_size
entries_size-entry interrupted f entries ret time e e' =
    let later : ℕ = (get_fs_size_sub_proc interrupted true f (suc time)).1 in
    let size : Option ℕ = (get_fs_size_sub_proc interrupted true f (suc time)).0 in
    ap
      (λ b.
        (elim b as (λ _. Option ℕ × ℕ) [
          | true ↦ (some ret, suc time)
          | false ↦ elim (or_zero size) as (λ _. Option ℕ × ℕ) [
            | none ↦ (none, later)
            | some k ↦ entries_size interrupted true entries (add64 ret k) later
          ]
        ]).0)
      e
    ∙ ap
        (λ o.
          (elim o as (λ _. Option ℕ × ℕ) [
            | none ↦ (none, later)
            | some k ↦ entries_size interrupted true entries (add64 ret k) later
          ]).0)
        e'

module _ (interrupted : ℕ → Bool) (never : (time : ℕ) → interrupted time ≡ false) where
  mutual
    unfolding get_fs_size_sub_proc entries_size total total_entries

    get_fs_size_sub_proc-total :
        (f : File) (time : ℕ)
        → total f < word
        → caught interrupted true (get_fs_size_sub_proc interrupted true f time).0 ≡ some (total f)
    get_fs_size_sub_proc-total (plain none) time h = refl
    get_fs_size_sub_proc-total (plain (some own)) time h = ap some (omega arith)
    get_fs_size_sub_proc-total unreadable time h = refl
    get_fs_size_sub_proc-total (link f) time h = get_fs_size_sub_proc-total f time h
    get_fs_size_sub_proc-total (directory none entries) time h =
        no_own (entries_size interrupted true entries 0 time).0
    get_fs_size_sub_proc-total (directory (some own) entries) time h =
        rw (entries_size-total entries 0 time (omega arith))
          (ap some (omega (arith, add64_lem (0 + total_entries entries) own)))

    entries_size-total :
        (entries : Entries) (ret time : ℕ)
        → ret + total_entries entries < word
        → (entries_size interrupted true entries ret time).0 ≡ some (ret + total_entries entries)
    entries_size-total no_more ret time h = ap some (omega arith)
    entries_size-total (entry f entries) ret time h =
        entries_size-entry interrupted f entries ret time (never time)
          (get_fs_size_sub_proc-total f (suc time) (omega arith))
        ∙ entries_size-total entries (add64 ret (total f))
            (get_fs_size_sub_proc interrupted true f (suc time)).1
            (omega (arith, add64_lem ret (total f)))
        ∙ ap some (omega (arith, add64_lem ret (total f)))

  -- When it is not interrupted and ignores errors, `calculateDirSize` gives the sum of the sizes of all
  -- files and directories that can be read, if that is below 2 ^ 64: a file whose size cannot be had
  -- counts for nothing, and so does a directory with all that is in it. A symbolic link counts for what
  -- it leads to, a directory with all that is in it, as often as it is met.
  pub calculate_dir_size-total :
      (f : File) → total f < word → calculate_dir_size interrupted true f ≡ some (total f)
  unfolding calculate_dir_size
  calculate_dir_size-total f h = get_fs_size_sub_proc-total f 0 h
