-- ===== src/Watcher/Keep.antt =====
-- Reports on generated files end, and change nothing of the manager but what has been posted
-- (src/PersistAndCallbackManager.cpp).
use Prim.Native.String.{String}
use text.Mathlib.Text.{◌==◌}
use ml_gridengine_executor.Base.{
  ℕ, suc, ◌+◌, ◌^◌, ◌<◌, ◌≡◌, refl, ap, ◌∙◌, List, [], ◌∷◌, ◌++◌, Bool, not, ◌||◌, some, Bool-cases,
  inl, inr, ℤ, subst, sym,
}
use ml_gridengine_executor.Callback.{Action, Manager, file_generated, is_new}
use ml_gridengine_executor.Callback.Report.{file_generated-is_new}
use ml_gridengine_executor.Watcher.{deliver}
use ml_gridengine_executor.Watcher.Deliver.{deliver-step}

-- `m'` is `m` but for what has been posted.
abbrev pub Alike : Manager → Manager → Type 0
Alike m m' = m' ≡ record m { last_posted = m'.last_posted }

Alike-trans : (a b c : Manager) → Alike a b → Alike b c → Alike a c
Alike-trans a b c e e' = e' ∙ ap {B = Manager} (λ m. record m { last_posted = c.last_posted }) e

module _ {ℓ} {Json : Type ℓ} (object : List (String × Json) → Json) (text : String → Json)
    (number : ℤ → Json) (to_string : Json → String) where
  file_generated-Alike :
      (succeeds : ℕ → Bool) (m : Manager) (tag : String) (doc : Json)
      → m.max_retry + 1 < 2 ^ 32
      → (actions : List Action) × (m' : Manager) × (file_generated object text number to_string
            succeeds m tag doc
          ≡ some (actions, m'))
        × Alike m m'
  file_generated-Alike succeeds m tag doc bounded =
      let eq = file_generated-is_new object text number to_string succeeds m bounded tag doc in
      elim (Bool-cases ((m.uri == "") || not (is_new (m.last_posted tag) (to_string doc)))) [
        | inl c ↦ (_, _, rw c at eq, refl)
        | inr c ↦ (_, _, rw c at eq, refl)
      ]

  pub deliver-Alike :
      (succeeds : ℕ → ℕ → Bool) (n : ℕ) (calls : List (String × Json)) (m : Manager)
      → m.max_retry + 1 < 2 ^ 32
      → (actions : List Action) × (m' : Manager) × (deliver object text number to_string succeeds n
            calls m
          ≡ some (actions, m'))
        × Alike m m'
  deliver-Alike succeeds n [] m bounded = ([], m, unfold deliver in refl, refl)
  deliver-Alike succeeds n ((tag, doc) ∷ calls) m bounded =
      let (actions, m', eq, alike) = file_generated-Alike (succeeds n) m tag doc bounded in
      let (more, m'', eq', alike') =
        deliver-Alike succeeds (suc n) calls m'
          (subst (λ r. r + 1 < 2 ^ 32) (sym (ap (λ x. x.max_retry) alike)) bounded) in
      (
        actions ++ more,
        m'',
        deliver-step object text number to_string succeeds n m m' m'' tag doc calls eq eq',
        Alike-trans m m' m'' alike alike',
      )
