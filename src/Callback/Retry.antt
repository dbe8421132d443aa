-- ===== src/Callback/Retry.antt =====
-- The attempts of `_postEvent` (src/PersistAndCallbackManager.cpp): it always ends.
use Prim.Native.String.{String}
use ml_gridengine_executor.Base.{
  false, ℕ, zero, suc, false, none, ltb, ◌-◌, ◌%◌, ◌+◌, ◌^◌, ◌≤◌, ◌<◌, ◌≡◌, refl, ◌∙◌, List, [],
  ◌∷◌, Bool, some, arith, ltb-true, ltb-false, leb-true, leb-false, if◌then◌else◌, Bool-cases, inl,
  inr, ℤ,
}
use text.Mathlib.Text.{◌==◌}
use ml_gridengine_executor.Callback.{Manager, post_event, add32, Action, posts, sleeps, post_loop}

-- The number of attempts from the `i`-th on that fail before one succeeds, of at most `more` retries.
abbrev pub failures : (ℕ → Bool) → ℕ → ℕ → ℕ
failures succeeds zero i = 0
failures succeeds (suc more) i = if succeeds i then 0 else suc (failures succeeds more (suc i))

-- `n` failed attempts, each with the sleep after it, and one more. The times are a Fibonacci
-- sequence of `unsigned int`.
abbrev pub attempts : String → ℕ → ℕ → ℕ → List Action
attempts doc zero s t = posts doc ∷ []
attempts doc (suc n) s t = posts doc ∷ sleeps s ∷ attempts doc n t (add32 s t)

module _ (succeeds : ℕ → Bool) (max_retry : ℕ) (doc : String)
    (bounded : max_retry + 1 < 2 ^ 32) where
  next_i : (i : ℕ) → i ≤ max_retry → add32 i 1 ≡ suc i
  unfolding add32
  next_i i h = omega arith

  -- After the last attempt.
  post_loop-over :
      (fuel i s t : ℕ) → max_retry < i → post_loop succeeds max_retry doc (suc fuel) i s t ≡ some []
  unfolding post_loop
  post_loop-over fuel i s t h = rw (leb-false i max_retry h) refl

  -- The last attempt.
  post_loop-last :
      (fuel i s t : ℕ)
      → i ≡ max_retry
      → post_loop succeeds max_retry doc (suc (suc fuel)) i s t ≡ some (posts doc ∷ [])
  unfolding post_loop
  post_loop-last fuel i s t e =
      rw
        (
          leb-true i max_retry (omega arith),
          ltb-false i max_retry (omega arith),
          next_i i (omega arith),
          post_loop-over fuel (suc i) s t (omega arith),
        )
        (elim (Bool-cases (succeeds i)) [ inl c ↦ rw c refl | inr c ↦ rw c refl ])

  -- An attempt that can be made again.
  post_loop-more :
      (fuel i s t : ℕ) (rest : List Action)
      → i < max_retry
      → post_loop succeeds max_retry doc fuel (suc i) t (add32 s t) ≡ some rest
      → post_loop succeeds max_retry doc (suc fuel) i s t
        ≡ some (if succeeds i then posts doc ∷ [] else posts doc ∷ sleeps s ∷ rest)
  unfolding post_loop
  post_loop-more fuel i s t rest lt e =
      rw (leb-true i max_retry (omega arith), ltb-true i max_retry lt, next_i i (omega arith), e)
        (elim (Bool-cases (succeeds i)) [ inl c ↦ rw c refl | inr c ↦ rw c refl ])

  pub post_loop-attempts :
      (more i s t : ℕ)
      → i + more ≡ max_retry
      → post_loop succeeds max_retry doc (suc (suc more)) i s t
        ≡ some (attempts doc (failures succeeds more i) s t)
  post_loop-attempts zero i s t e = post_loop-last 0 i s t (omega arith)
  post_loop-attempts (suc more) i s t e =
      post_loop-more (suc (suc more)) i s t _ (omega arith)
        (post_loop-attempts more (suc i) t (add32 s t) (omega arith))
      ∙ elim (Bool-cases (succeeds i)) [ inl c ↦ rw c refl | inr c ↦ rw c refl ]

module _ {ℓ} {Json : Type ℓ} (object : List (String × Json) → Json) (text : String → Json)
    (number : ℤ → Json) (to_string : Json → String) where
  -- With fewer than 2 ^ 32 - 1 retries, `_postEvent` ends: it posts the same document until an
  -- attempt succeeds or the retries are used up, and sleeps after each failed attempt but the last,
  -- for 5, 8, 13, ... seconds. Without a URI it does nothing.
  pub post_event-attempts :
      (succeeds : ℕ → Bool) (m : Manager) (event_type : String) (doc : Json)
      → m.max_retry + 1 < 2 ^ 32
      → post_event object text number to_string succeeds m event_type doc
        ≡ some (
            if m.uri == ""
            then []
            else attempts
                (to_string (object (("eventType", text event_type) ∷ ("data", doc) ∷ [])))
                (failures succeeds m.max_retry 0)
                5
                8)
  unfolding post_event
  post_event-attempts succeeds m event_type doc bounded = elim (Bool-cases (m.uri == "")) [
    | inl c ↦ rw c refl
    | inr c ↦
        rw c (post_loop-attempts succeeds m.max_retry _ bounded m.max_retry 0 5 8 (omega arith))
  ]

-- If every attempt fails and `_maxRetry` is the greatest `unsigned int`, the loop never ends.
pub post_loop_forever :
    (succeeds : ℕ → Bool) (doc : String) (fuel i s t : ℕ)
    → ((n : ℕ) → succeeds n ≡ false)
    → i < 2 ^ 32
    → post_loop succeeds (2 ^ 32 - 1) doc fuel i s t ≡ none
unfolding post_loop add32
post_loop_forever succeeds doc zero i s t never h = refl
post_loop_forever succeeds doc (suc fuel) i s t never h =
    let again : Bool = ltb i (2 ^ 32 - 1) in
    rw
      (
        leb-true i (2 ^ 32 - 1) (omega arith),
        never i,
        post_loop_forever succeeds doc fuel ((i + 1) % 2 ^ 32) (if again then t else s)
            (if again then add32 s t else t) never (omega arith),
      )
      refl
