-- ===== src/Callback/Report.antt =====
-- What `PersistAndCallbackManager` reports (src/PersistAndCallbackManager.cpp).
use Prim.Native.String.{String}
use Prim.Native.String as Texts
use text.Mathlib.Text.{◌==◌}
use text.Mathlib.TextPositions.{eq_refl}
use text.Mathlib.TextEquality.{eq_iff}
use ml_gridengine_executor.Base.{
  ℕ, ◌+◌, ◌*◌, ◌≤◌, pos, ◌^◌, ◌<◌, ◌≡◌, refl, ap, ◌∙◌, List, [], ◌∷◌, ◌++◌, Bool, true, false, not,
  ◌||◌, ◌&&◌, Option, subst, ◌⊎◌, ◌≢◌, none, some, arith, if◌then◌else◌, Bool-cases, inl, inr, ℤ,
}
use ml_gridengine_executor.Result.{ok}
use ml_gridengine_executor.ProgramExecutor.{
  ProgramExecutor, exited, signalled, exit_code, exit_signal, wait_in_background,
}
use ml_gridengine_executor.ProgramExecutor.Status.{
  exit_code-wait_in_background, exit_signal-wait_in_background, status-wait_in_background_exit,
  status-wait_in_background_signal,
}
use ml_gridengine_executor.Callback.{
  Manager, Action, saves, update_status, status_fields, program_finished, file_generated, is_new,
}
use ml_gridengine_executor.Callback.Retry.{attempts, failures, post_event-attempts}

-- The manager after a report of `printed` on a file.
abbrev pub remembering : Manager → String → String → Manager
remembering m tag printed = record m {
  last_posted = λ other. if other == tag then some printed else m.last_posted other;
}

pub same_text : (s t : String) → s ≡ t → (s == t) ≡ true
same_text s t q = subst (λ u. (s == u) ≡ true) q (eq_refl s)

pub different_text : (s t : String) → s ≢ t → (s == t) ≡ false
different_text s t h = elim (Bool-cases (s == t)) [
  | inl c ↦ absurd (h ((eq_iff s t).0 c))
  | inr c ↦ c
]

not_new : (doc : String) → is_new (some doc) doc ≡ false
unfolding is_new
not_new doc = rw (eq_refl doc) refl

-- A content is new that is not the one last posted.
new_if : (last : Option String) (doc : String) → last ≢ some doc → is_new last doc ≡ true
unfolding is_new
new_if none doc h = refl
new_if (some s) doc h = rw (different_text s doc (λ q. h (ap (λ t. some t) q))) refl

module _ {ℓ} {Json : Type ℓ} (object : List (String × Json) → Json) (text : String → Json)
    (number : ℤ → Json) (to_string : Json → String) where
  status_fields-exited :
      (e : ProgramExecutor)
      → e.status ≡ exited
      → status_fields object text number to_string e
        ≡ ("status", text "EXITED") ∷ ("exitCode", number (exit_code e)) ∷ []
  unfolding status_fields
  status_fields-exited e h = rw h refl

  status_fields-signalled :
      (e : ProgramExecutor)
      → e.status ≡ signalled
      → status_fields object text number to_string e
        ≡ ("status", text "SIGNALLED") ∷ ("exitSignal", number (exit_signal e)) ∷ []
  unfolding status_fields
  status_fields-signalled e h = rw h refl

  pub status_fields-exit :
      (e : ProgramExecutor) (code : ℕ)
      → code < 256
      → status_fields object text number to_string (wait_in_background e (some (code * 256))).0
        ≡ ("status", text "EXITED") ∷ ("exitCode", number (pos code)) ∷ []
  status_fields-exit e code h =
      status_fields-exited _ (status-wait_in_background_exit e code)
      ∙ ap (λ z. ("status", text "EXITED") ∷ ("exitCode", number z) ∷ [])
          (exit_code-wait_in_background e code h).0

  pub status_fields-signal :
      (e : ProgramExecutor) (signal dumped : ℕ)
      → 1 ≤ signal
      → signal < 127
      → dumped ≤ 1
      → status_fields object text number to_string
          (wait_in_background e (some (dumped * 128 + signal))).0
        ≡ ("status", text "SIGNALLED") ∷ ("exitSignal", number (pos signal)) ∷ []
  status_fields-signal e signal dumped h k d =
      status_fields-signalled _ (status-wait_in_background_signal e signal dumped h k d)
      ∙ ap (λ z. ("status", text "SIGNALLED") ∷ ("exitSignal", number z) ∷ [])
          (exit_signal-wait_in_background e signal dumped h k d).0

module _ {ℓ} {Json : Type ℓ} (object : List (String × Json) → Json) (text : String → Json)
    (number : ℤ → Json) (to_string : Json → String) (succeeds : ℕ → Bool) (m : Manager) where
  -- The actions that post an event.
  abbrev pub posting : String → Json → List Action
  posting event_type doc =
      if m.uri == ""
      then []
      else attempts (to_string (object (("eventType", text event_type) ∷ ("data", doc) ∷ [])))
          (failures succeeds m.max_retry 0) 5 8

  pub file_generated-is_new :
      (bounded : m.max_retry + 1 < 2 ^ 32) (tag : String) (doc : Json)
      → file_generated object text number to_string succeeds m tag doc
        ≡ some (
            if (m.uri == "") || not (is_new (m.last_posted tag) (to_string doc))
            then ([], m)
            else (posting (Texts.◌++◌ "fileGenerated:" tag) doc, remembering m tag (to_string doc)))
  unfolding file_generated
  file_generated-is_new bounded tag doc =
      rw
        (post_event-attempts object text number to_string succeeds m
          (Texts.◌++◌ "fileGenerated:" tag) doc bounded)
        (elim (Bool-cases (m.uri == "")) [
          | inl c ↦ rw c refl
          | inr c ↦ elim (Bool-cases (is_new (m.last_posted tag) (to_string doc))) [
            | inl d ↦ rw (c, d) refl
            | inr d ↦ rw (c, d) refl
          ]
        ])

  -- What is done with a report, by whether it is passed over.
  abbrev outcome : String → Json → Bool → List Action × Manager
  outcome tag doc passed =
      if passed
      then ([], m)
      else (posting (Texts.◌++◌ "fileGenerated:" tag) doc, remembering m tag (to_string doc))

  nothing_new :
      (tag : String) (doc : Json)
      → ((m.uri ≡ "") ⊎ (m.last_posted tag ≡ some (to_string doc)))
      → ((m.uri == "") || not (is_new (m.last_posted tag) (to_string doc))) ≡ true
  nothing_new tag doc (inl no_uri) = rw (same_text m.uri "" no_uri) refl
  nothing_new tag doc (inr posted) =
      let old : is_new (m.last_posted tag) (to_string doc) ≡ false =
        ap (λ o. is_new o (to_string doc)) posted ∙ not_new (to_string doc) in
      ground (arith, old)

  something_new :
      (tag : String) (doc : Json)
      → m.uri ≢ ""
      → m.last_posted tag ≢ some (to_string doc)
      → ((m.uri == "") || not (is_new (m.last_posted tag) (to_string doc))) ≡ false
  something_new tag doc has_uri fresh =
      rw (different_text m.uri "" has_uri, new_if (m.last_posted tag) (to_string doc) fresh) refl

  -- With fewer than 2 ^ 32 - 1 retries, `fileGenerated` ends. Nothing happens if there is no URI, or if
  -- the content is the one last posted for that file; where there is a URI and it is not, as with a
  -- file for which nothing has been posted, the content is posted, and remembered for that file only.
  pub file_generated-posting :
      (bounded : m.max_retry + 1 < 2 ^ 32) (tag : String) (doc : Json)
      → (((m.uri ≡ "") ⊎ (m.last_posted tag ≡ some (to_string doc)))
          → file_generated object text number to_string succeeds m tag doc ≡ some ([], m))
        × (m.uri ≢ ""
            → m.last_posted tag ≢ some (to_string doc)
            → file_generated object text number to_string succeeds m tag doc
              ≡ some (
                posting (Texts.◌++◌ "fileGenerated:" tag) doc,
                remembering m tag (to_string doc),
              ))
  file_generated-posting bounded tag doc = (
    λ quiet.
        file_generated-is_new bounded tag doc
        ∙ ap (λ d. some (outcome tag doc d)) (nothing_new tag doc quiet),
    λ has_uri fresh.
        file_generated-is_new bounded tag doc
        ∙ ap (λ d. some (outcome tag doc d)) (something_new tag doc has_uri fresh),
  )

  -- A content that has been posted is not posted again as long as no other content of that file is.
  pub file_generated_again :
      (tag : String) (doc : Json)
      → (m.uri == "") ≡ false
      → file_generated object text number to_string succeeds
          (remembering m tag (to_string doc))
          tag
          doc
        ≡ some ([], remembering m tag (to_string doc))
  unfolding file_generated is_new
  file_generated_again tag doc c = rw (c, eq_refl tag, eq_refl (to_string doc)) refl

  -- The document of `programFinished` with the fields of the status.
  abbrev pub finished_with : ℤ → List (String × Json) → Json
  finished_with work_dir_size fields = object (
      ("executor.hostname", text m.host_name)
      ∷ ("executor.port", number m.port)
      ∷ ("workDirSize", number work_dir_size)
      ∷ fields)

  -- The actions that report a status: it is saved first, if there is a status file, and then posted.
  abbrev pub reporting : Json → List Action
  reporting doc =
      (if m.status_file == "" then [] else saves m.status_file (to_string doc) ∷ [])
      ++ posting "statusUpdated" doc

  pub update_status-reporting :
      (opens : Bool) (bounded : m.max_retry + 1 < 2 ^ 32) (doc : Json)
      → (not (m.status_file == "") && not opens) ≡ false
      → update_status object text number to_string opens succeeds m doc ≡ ok (some (reporting doc))
  unfolding update_status
  update_status-reporting opens bounded doc saved =
      rw
        (
          saved,
          post_event-attempts object text number to_string succeeds m "statusUpdated" doc bounded,
        )
        refl

  pub finished-reporting :
      (opens : Bool) (bounded : m.max_retry + 1 < 2 ^ 32) (e : ProgramExecutor) (work_dir_size : ℤ)
      (fields : List (String × Json))
      → (not (m.status_file == "") && not opens) ≡ false
      → status_fields object text number to_string e ≡ fields
      → program_finished object text number to_string opens succeeds m e work_dir_size
        ≡ ok (some (reporting (finished_with work_dir_size fields)))
  unfolding program_finished
  finished-reporting opens bounded e work_dir_size fields saved eq =
      update_status-reporting opens bounded
        (finished_with work_dir_size (status_fields object text number to_string e)) saved
      ∙ ap (λ fs. ok (some (reporting (finished_with work_dir_size fs)))) eq
