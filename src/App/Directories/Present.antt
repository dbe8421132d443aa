-- ===== src/App/Directories/Present.antt =====
-- The directories that are there once `runApp` (src/main.cpp) has prepared them.
use Prim.Native.String.{String}
use text.Mathlib.Text.{◌==◌}
use text.Mathlib.TextEquality.{eq_iff}
use ml_gridengine_executor.Base.{
  subst, ◌≡◌, refl, ◌⊎◌, inl, inr, List, [], ◌∷◌, true, Bool-cases, Option, none, some, arith,
}
use ml_gridengine_executor.Result.{ok, throws, fault}
use ml_gridengine_executor.Options.{Settings}
use ml_gridengine_executor.App.Monad.{Run, ◌>>=◌, done}
use ml_gridengine_executor.App.Directories.{
  FileSystem, create_missing, make_parents, make_parents_unless_empty, prepare,
}

-- A directory that has been made exists, and making another one takes none away.
pub record Keeping (fs : FileSystem) : Type 0 where
  pub made : (dir : String) (before : List String) → fs.exists_after (dir ∷ before) dir ≡ true
  pub stays :
      (dir other : String) (before : List String)
      → fs.exists_after before other ≡ true
      → fs.exists_after (dir ∷ before) other ≡ true

-- A predicate on what a run comes to, if it comes to its end.
abbrev Gives : (List String → Type 0) → Run (List String) → Type 0
Gives P (ok none) = Unit
Gives P (ok (some made)) = P made
Gives P (throws e) = Unit
Gives P fault = Unit

Gives-bind :
    (P Q : List String → Type 0) (r : Run (List String)) (f : List String → Run (List String))
    → Gives P r
    → ((made : List String) → P made → Gives Q (f made))
    → Gives Q (r >>= f)
Gives-bind P Q (ok none) f p h = tt
Gives-bind P Q (ok (some made)) f p h = h made p
Gives-bind P Q (throws e) f p h = tt
Gives-bind P Q fault f p h = tt

Gives-map :
    (P Q : List String → Type 0) (r : Run (List String))
    → Gives P r
    → ((made : List String) → P made → Q made)
    → Gives Q r
Gives-map P Q (ok none) p h = tt
Gives-map P Q (ok (some made)) p h = h made p
Gives-map P Q (throws e) p h = tt
Gives-map P Q fault p h = tt

-- A path is empty, or Poco knows no parent of it, or its parent is there.
abbrev pub HasParent : FileSystem → List String → String → Type 0
HasParent fs made path =
    (path ≡ "")
    ⊎ ((fs.parent_of path ≡ none)
        ⊎ ((dir : String) × (fs.parent_of path ≡ some dir) × (fs.exists_after made dir ≡ true)))

module _ (fs : FileSystem) (k : Keeping fs) where
  -- What exists before exists after.
  abbrev Extends : List String → List String → Type 0
  Extends before after =
      (path : String) → fs.exists_after before path ≡ true → fs.exists_after after path ≡ true

  create_missing-Gives :
      (dir : String) (before : List String)
      → Gives
          (λ after. (fs.exists_after after dir ≡ true) × Extends before after)
          (create_missing fs dir before)
  unfolding create_missing
  create_missing-Gives dir before = elim (Bool-cases (fs.exists_after before dir)) [
    | inl c ↦ rw c (c, λ path h. h)
    | inr c ↦ elim (Bool-cases (fs.can_create dir)) [
      | inl d ↦ rw (c, d) (k.made dir before, λ path h. k.stays dir path before h)
      | inr d ↦ rw (c, d) tt
    ]
  ]

  make_parents-Gives :
      (path : String) (before : List String)
      → Gives
          (λ after. HasParent fs after path × Extends before after)
          (make_parents fs path before)
  unfolding make_parents
  make_parents-Gives path before = cases (fs.parent_of path) refl
    where
      cases :
          (o : Option String)
          → fs.parent_of path ≡ o
          → Gives
              (λ after. HasParent fs after path × Extends before after)
              (elim o [ none ↦ done before | some dir ↦ create_missing fs dir before ])
      cases none e = (inr (inl e), λ other h. h)
      cases (some dir) e =
          Gives-map (λ after. (fs.exists_after after dir ≡ true) × Extends before after)
            (λ after. HasParent fs after path × Extends before after) (create_missing fs dir before)
            (create_missing-Gives dir before)
            (λ after (there, ext). (inr (inr (dir, e, there)), ext))

  make_parents_unless_empty-Gives :
      (path : String) (before : List String)
      → Gives
          (λ after. HasParent fs after path × Extends before after)
          (make_parents_unless_empty fs path before)
  unfolding make_parents_unless_empty
  make_parents_unless_empty-Gives path before = elim (Bool-cases (path == "")) [
    | inl c ↦ rw c (inl (ground (arith, eq_iff path "", c)), λ other h. h)
    | inr c ↦ rw c (make_parents-Gives path before)
  ]

  HasParent-Extends :
      (path : String) (before after : List String)
      → HasParent fs before path
      → Extends before after
      → HasParent fs after path
  HasParent-Extends path before after (inl e) h = inl e
  HasParent-Extends path before after (inr (inl e)) h = inr (inl e)
  HasParent-Extends path before after (inr (inr (dir, e, there))) h =
      inr (inr (dir, e, h dir there))

  -- What `runApp` needs is there.
  abbrev pub Prepared : Settings → List String → Type 0
  Prepared s made =
      (fs.exists_after made s.work_dir ≡ true)
      × HasParent fs made s.output_file
      × HasParent fs made s.status_file

  -- In a file system where a directory that has been made exists and takes no other away: once the
  -- directories are prepared without an exception, the working directory exists, and so does the parent
  -- of the output file and of the status file, if they are given and Poco knows it.
  pub prepare-HasParent :
      (s : Settings) (made : List String) → prepare fs s ≡ done made → Prepared s made
  unfolding prepare
  prepare-HasParent s made e = subst (Gives (Prepared s)) e (
      Gives-bind (λ a. (fs.exists_after a s.work_dir ≡ true) × Extends [] a) (Prepared s)
        (create_missing fs s.work_dir [])
        (λ a.
          make_parents_unless_empty fs s.output_file a
          >>= make_parents_unless_empty fs s.status_file)
        (create_missing-Gives s.work_dir [])
        (λ a (there, _).
          Gives-bind (λ b. HasParent fs b s.output_file × Extends a b) (Prepared s)
            (make_parents_unless_empty fs s.output_file a)
            (make_parents_unless_empty fs s.status_file)
            (make_parents_unless_empty-Gives s.output_file a)
            (λ b (out, ext).
              Gives-map (λ c. HasParent fs c s.status_file × Extends b c) (Prepared s)
                (make_parents_unless_empty fs s.status_file b)
                (make_parents_unless_empty-Gives s.status_file b)
                (λ c (status, ext'). (
                  ext' s.work_dir (ext s.work_dir there),
                  HasParent-Extends s.output_file b c out ext',
                  status,
                )))))
