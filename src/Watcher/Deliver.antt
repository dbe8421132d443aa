-- ===== src/Watcher/Deliver.antt =====
-- What has been posted after a series of reports on generated files (src/GeneratedFilesWatcher.cpp,
-- src/main.cpp, src/PersistAndCallbackManager.cpp).
use Prim.Native.String.{String}
use text.Mathlib.Text.{◌==◌}
use text.Mathlib.TextEquality.{eq_iff}
use ml_gridengine_executor.Base.{
  ℕ, suc, ◌+◌, ◌^◌, ◌<◌, ◌≡◌, refl, ap, ◌∙◌, List, [], ◌∷◌, ◌++◌, Bool, false, Option, none, some,
  arith, if◌then◌else◌, Bool-cases, inl, inr, ℤ, ◌>>=◌,
}
use ml_gridengine_executor.Callback.{Action, Manager, file_generated, is_new}
use ml_gridengine_executor.Callback.Report.{file_generated-is_new}
use ml_gridengine_executor.Watcher.{deliver}

is_new-false : (o : Option String) (printed : String) → is_new o printed ≡ false → o ≡ some printed
unfolding is_new
is_new-false none printed e = cc e
is_new-false (some last) printed e = ap some (ground (arith, eq_iff last printed, e))

module _ {ℓ} {Json : Type ℓ} (object : List (String × Json) → Json) (text : String → Json)
    (number : ℤ → Json) (to_string : Json → String) where
  -- The content that the last of the calls for `tag` reports, or `before` if there is none.
  abbrev pub last_content : String → List (String × Json) → Option String → Option String
  last_content tag [] before = before
  last_content tag ((other, doc) ∷ calls) before =
      last_content tag calls (if tag == other then some (to_string doc) else before)

  unchanged :
      (m : Manager) (tag other : String) (doc : Json)
      → is_new (m.last_posted other) (to_string doc) ≡ false
      → m.last_posted tag ≡ (if tag == other then some (to_string doc) else m.last_posted tag)
  unchanged m tag other doc d = elim (Bool-cases (tag == other)) [
    | inr t ↦ rw t refl
    | inl t ↦
        let e : tag ≡ other = ground (arith, eq_iff tag other, t) in
        rw t (ap m.last_posted e ∙ is_new-false (m.last_posted other) (to_string doc) d)
  ]

  -- One call.
  file_generated-last :
      (succeeds : ℕ → Bool) (m : Manager) (tag other : String) (doc : Json)
      → m.max_retry + 1 < 2 ^ 32
      → (m.uri == "") ≡ false
      → (actions : List Action) × (m' : Manager) × (file_generated object text number to_string
            succeeds m other doc
          ≡ some (actions, m'))
        × (m'.last_posted tag ≡ (if tag == other then some (to_string doc) else m.last_posted tag))
        × (m'.max_retry ≡ m.max_retry)
        × (m'.uri ≡ m.uri)
  file_generated-last succeeds m tag other doc bounded c =
      let eq = file_generated-is_new object text number to_string succeeds m bounded other doc in
      elim (Bool-cases (is_new (m.last_posted other) (to_string doc))) [
        | inl d ↦ (_, _, rw (c, d) at eq, refl, refl, refl)
        | inr d ↦ (_, _, rw (c, d) at eq, unchanged m tag other doc d, refl, refl)
      ]

  pub deliver-step :
      (succeeds : ℕ → ℕ → Bool) (n : ℕ) (m m' m'' : Manager) (other : String) (doc : Json)
      (calls : List (String × Json)) {actions more : List Action}
      → file_generated object text number to_string (succeeds n) m other doc ≡ some (actions, m')
      → deliver object text number to_string succeeds (suc n) calls m' ≡ some (more, m'')
      → deliver object text number to_string succeeds n ((other, doc) ∷ calls) m
        ≡ some (actions ++ more, m'')
  unfolding deliver
  deliver-step succeeds n m m' m'' other doc calls eq eq' = rw (eq, ◌>>=◌, eq') refl

  -- With a URI and fewer than 2 ^ 32 - 1 retries, a series of calls of `fileGenerated` ends, and
  -- the content remembered as posted for a file is then the one that the last call for it
  -- reported, or what it was if there was none.
  pub deliver-last_content :
      (succeeds : ℕ → ℕ → Bool) (n : ℕ) (tag : String) (calls : List (String × Json)) (m : Manager)
      → m.max_retry + 1 < 2 ^ 32
      → (m.uri == "") ≡ false
      → (actions : List Action) × (m' : Manager) × (deliver object text number to_string succeeds n
            calls m
          ≡ some (actions, m'))
        × (m'.last_posted tag ≡ last_content tag calls (m.last_posted tag))
  deliver-last_content succeeds n tag [] m bounded c = ([], m, unfold deliver in refl, refl)
  deliver-last_content succeeds n tag ((other, doc) ∷ calls) m bounded c =
      let (actions, m', eq, now, retry, uri) =
        file_generated-last (succeeds n) m tag other doc bounded c in
      let (more, m'', eq', later) =
        deliver-last_content succeeds (suc n) tag calls m' (omega (arith, bounded, retry))
          (ap (λ u. u == "") uri ∙ c) in
      (
        actions ++ more,
        m'',
        deliver-step succeeds n m m' m'' other doc calls eq eq',
        later ∙ ap (last_content tag calls) now,
      )
