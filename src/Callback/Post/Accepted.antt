-- ===== src/Callback/Post/Accepted.antt =====
-- `_postEvent` over a network (src/PersistAndCallbackManager.cpp): it posts until the server accepts.
use Prim.Native.String.{String}
use text.Mathlib.Text.{◌==◌}
use ml_gridengine_executor.Base.{
  ℕ, zero, suc, ◌+◌, ◌^◌, ◌≤◌, ◌<◌, ◌≡◌, ◌⊎◌, inl, inr, refl, ap, sym, ◌∙◌, List, [], ◌∷◌, Bool,
  true, false, not, Option, some, arith, if◌then◌else◌, Bool-cases, ==_iff, ℤ,
}
use ml_gridengine_executor.Base
use ml_gridengine_executor.Callback.{Action, Manager}
use ml_gridengine_executor.Callback.Retry.{failures, attempts, post_event-attempts}
use ml_gridengine_executor.Callback.Post.{
  Uri, Request, Exchange, fails, responds, request_of, outcome, post, is_posted, requests, attempt,
  post_event_to,
}

-- `n` times the same.
abbrev pub repeat {ℓ} : {A : Type ℓ} → ℕ → A → List A
repeat zero a = []
repeat (suc n) a = a ∷ repeat n a

-- The status 200.
abbrev pub is_ok : Exchange → Bool
is_ok (fails why) = false
is_ok (responds status reason body) = Base.◌==◌ status 200

-- `failures` counts the attempts before the first that succeeds.
failures-le : (succeeds : ℕ → Bool) (more i : ℕ) → failures succeeds more i ≤ more
failures-le succeeds zero i = omega arith
failures-le succeeds (suc more) i = elim (Bool-cases (succeeds i)) [
  | inl c ↦ rw c (omega arith)
  | inr c ↦ rw c (omega (arith, failures-le succeeds more (suc i)))
]

failures-before :
    (succeeds : ℕ → Bool) (more i j : ℕ)
    → i ≤ j
    → j < i + failures succeeds more i
    → succeeds j ≡ false
failures-before succeeds zero i j le lt = absurd (omega arith)
failures-before succeeds (suc more) i j le lt = elim (Bool-cases (succeeds i)) [
  | inl c ↦ absurd (let lt' : j < i + 0 = rw c at lt in omega (arith, lt'))
  | inr c ↦
      let lt' : j < i + suc (failures succeeds more (suc i)) = rw c at lt in
      elim (Bool-cases (Base.◌==◌ i j)) [
        | inl q ↦ let same : j ≡ i = ground (arith, ==_iff i j, q) in ap succeeds same ∙ c
        | inr q ↦
            failures-before succeeds more (suc i) j (ground (arith, ==_iff i j, q))
              (omega (arith, lt'))
      ]
]

failures-last :
    (succeeds : ℕ → Bool) (more i : ℕ)
    → (succeeds (i + failures succeeds more i) ≡ true) ⊎ (failures succeeds more i ≡ more)
failures-last succeeds zero i = inr refl
failures-last succeeds (suc more) i = elim (Bool-cases (succeeds i)) [
  | inl c ↦ let here : i + 0 ≡ i = omega arith in inl (rw c (rw here c))
  | inr c ↦ elim (failures-last succeeds more (suc i)) [
    | inl h ↦
        let here : i + suc (failures succeeds more (suc i))
            ≡ suc i + failures succeeds more (suc i) =
          omega arith in
        inl (rw c (ap succeeds here ∙ h))
    | inr h ↦ inr (rw c (ap suc h))
  ]
]

requests-attempts :
    (request : String → Request) (doc : String) (n s t : ℕ)
    → requests request (attempts doc n s t) ≡ repeat (suc n) (request doc)
unfolding requests
requests-attempts request doc zero s t = refl
requests-attempts request doc (suc n) s t =
    ap (λ l. request doc ∷ l) (requests-attempts request doc n t _)

module _ {ℓ} {Json : Type ℓ} (object : List (String × Json) → Json) (text : String → Json)
    (number : ℤ → Json) (to_string : Json → String) (encode_token : String → String)
    (decimal : ℤ → String) (trim : String → String) (parse_uri : String → Option Uri)
    (server : ℕ → Request → Exchange) (m : Manager) (token : String) where
  -- The request that posts an event.
  abbrev event_request : String → Json → Uri → Request
  event_request event_type doc u =
      request_of encode_token decimal trim token
        (to_string (object (("eventType", text event_type) ∷ ("data", doc) ∷ []))) u

  -- An attempt succeeds exactly when the server responds with the status 200.
  attempt-is_ok :
      (doc : String) (u : Uri) (i : ℕ)
      → parse_uri m.uri ≡ some u
      → attempt encode_token decimal trim parse_uri server m token doc i
        ≡ is_ok (server i (request_of encode_token decimal trim token doc u))
  unfolding attempt post is_posted outcome
  attempt-is_ok doc u i e =
      rw (attempt, post, e) (cases (server i (request_of encode_token decimal trim token doc u)))
    where
      cases : (x : Exchange) → is_posted (outcome encode_token decimal trim x) ≡ is_ok x
      cases (fails why) = refl
      cases (responds status reason body) = elim (Bool-cases (Base.◌==◌ status 200)) [
        | inl c ↦ rw c refl
        | inr c ↦ rw c refl
      ]

  -- With fewer than 2^32 - 1 retries and a URI that Poco can parse, `_postEvent` ends. It has sent the
  -- same request, one more time than it had failures, at most `_maxRetry` of them: every attempt but
  -- the last failed, being answered with another status than 200 or not at all, and the last was
  -- answered with 200, unless no retry was left.
  pub post_event_to-accepted :
      (event_type : String) (doc : Json) (u : Uri)
      → m.max_retry + 1 < 2 ^ 32
      → (m.uri == "") ≡ false
      → parse_uri m.uri ≡ some u
      → (n : ℕ) × (actions : List Action) × (post_event_to encode_token decimal trim parse_uri
            server object text number to_string m token event_type doc
          ≡ some actions)
        × (requests (λ d. request_of encode_token decimal trim token d u) actions
            ≡ repeat (suc n) (event_request event_type doc u))
        × (n ≤ m.max_retry)
        × ((i : ℕ) → i < n → is_ok (server i (event_request event_type doc u)) ≡ false)
        × ((is_ok (server n (event_request event_type doc u)) ≡ true) ⊎ (n ≡ m.max_retry))
  unfolding post_event_to
  post_event_to-accepted event_type doc u bounded e p =
      let printed : String =
        to_string (object (("eventType", text event_type) ∷ ("data", doc) ∷ [])) in
      let f : ℕ → Bool = attempt encode_token decimal trim parse_uri server m token printed in
      let n : ℕ = failures f m.max_retry 0 in
      (
        n,
        attempts printed n 5 8,
        post_event-attempts object text number to_string f m event_type doc bounded
            ∙ ap (λ b. some (if b then [] else attempts printed n 5 8)) e,
        requests-attempts (λ d. request_of encode_token decimal trim token d u) printed n 5 8,
        failures-le f m.max_retry 0,
        λ i lt.
            sym (attempt-is_ok printed u i p)
            ∙ failures-before f m.max_retry 0 i (omega arith) (omega (arith, lt)),
        elim (failures-last f m.max_retry 0) [
          | inl h ↦
              let from_zero : n ≡ 0 + n = omega arith in
              inl (sym (attempt-is_ok printed u n p) ∙ ap f from_zero ∙ h)
          | inr h ↦ inr h
        ],
      )
