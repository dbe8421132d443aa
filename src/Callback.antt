-- ===== src/Callback.antt =====
-- `PersistAndCallbackManager` (src/PersistAndCallbackManager.h, src/PersistAndCallbackManager.cpp):
-- the reports on the program, saved to the status file and posted to the callback API. The JSON
-- library and the HTTP requests are parameters: how objects are built and printed, and which attempts
-- to post succeed.
pub mod Retry
pub mod Report
pub mod Post
use Prim.Native.String.{String}
use Prim.Native.String as Texts
use mathlib.Core.Option
use text.Mathlib.Text.{◌==◌}
use ml_gridengine_executor.Base.{
  ℕ, zero, suc, ◌+◌, ◌%◌, ◌^◌, List, [], ◌∷◌, ◌++◌, Bool, true, false, not, ◌||◌, ◌&&◌, Option,
  none, some, ltb, leb, if◌then◌else◌, ◌>>=◌, ℤ, pos,
}
use ml_gridengine_executor.Result.{Result, ok, throws, fault, file_error}
use ml_gridengine_executor.ProgramExecutor.{
  ProgramExecutor, not_started, running, exited, signalled, cannot_kill, exit_code, exit_signal,
}

-- A sum of two `unsigned int`.
unfoldable pub add32 : ℕ → ℕ → ℕ
add32 a b = (a + b) % 2 ^ 32

-- What a call does: it writes the status file, posts a document, or sleeps for some seconds.
pub data Action : Type 0 where
  saves : String → String → Action
  posts : String → Action
  sleeps : ℕ → Action

pub record Manager : Type 0 where
  pub max_retry : ℕ
  pub status_file : String
  pub uri : String
  pub host_name : String
  pub port : ℤ
  pub last_posted : String → Option String

-- The constructor. `retry` is what ML_GRIDENGINE_CALLBACK_MAX_RETRY is parsed to, if it is set and is an
-- unsigned number; `_maxRetry` is kept as the `unsigned int` that the loop compares with.
unfoldable pub new_manager : String → String → Option ℕ → Manager
new_manager status_file uri retry = record {
  max_retry = elim retry [ none ↦ 5 | some n ↦ n ];
  status_file = status_file;
  uri = uri;
  host_name = "";
  port = pos 0;
  last_posted = λ tag. none;
}

-- `enabled()`
unfoldable pub enabled : Manager → Bool
enabled m = not (m.status_file == "") || not (m.uri == "")

-- The loop of `_postEvent` from `i` on, with the times to sleep; `none` means that the fuel ran out.
unfoldable pub post_loop : (ℕ → Bool) → ℕ → String → ℕ → ℕ → ℕ → ℕ → Option (List Action)
post_loop succeeds max_retry doc zero i sleep_time next_sleep_time = none
post_loop succeeds max_retry doc (suc fuel) i sleep_time next_sleep_time =
    let again = ltb i max_retry in
    let rest =
      post_loop succeeds max_retry doc fuel (add32 i 1)
        (if again then next_sleep_time else sleep_time)
        (if again then add32 sleep_time next_sleep_time else next_sleep_time) in
    if leb i max_retry
    then (if succeeds i
        then some (posts doc ∷ [])
        else Option.map
            (λ more. posts doc ∷ ((if again then sleeps sleep_time ∷ [] else []) ++ more)) rest)
    else some []

-- Whether `fileGenerated` has something new to post.
unfoldable pub is_new : Option String → String → Bool
is_new none doc = true
is_new (some last) doc = not (last == doc)

-- A call that ends with more than its own actions.
abbrev pub map_ended {ℓ κ} :
    {A : Type ℓ} {B : Type κ} → (A → B) → Result (Option A) → Result (Option B)
map_ended f (ok o) = ok (Option.map f o)
map_ended f (throws e) = throws e
map_ended f fault = fault

module _ {ℓ} {Json : Type ℓ} (object : List (String × Json) → Json) (text : String → Json)
    (number : ℤ → Json) (to_string : Json → String) where
  -- `_postEvent(eventType, doc)`
  unfoldable pub post_event : (ℕ → Bool) → Manager → String → Json → Option (List Action)
  unfolding post_loop
  post_event succeeds m event_type doc =
      if m.uri == ""
      then some []
      else post_loop succeeds m.max_retry
          (to_string (object (("eventType", text event_type) ∷ ("data", doc) ∷ [])))
          (suc (suc m.max_retry)) 0 5 8

  -- The end of `programStarted` and of `programFinished`. A status file that cannot be opened makes
  -- `saveFile` throw, before anything is posted.
  unfoldable pub update_status : Bool → (ℕ → Bool) → Manager → Json → Result (Option (List Action))
  unfolding post_event
  update_status opens succeeds m doc =
      if not (m.status_file == "") && not opens
      then throws file_error
      else ok (
          post_event succeeds m "statusUpdated" doc >>= λ posted. some (
            (if m.status_file == "" then [] else saves m.status_file (to_string doc) ∷ [])
            ++ posted))

  -- `programStarted(hostName, port)`
  unfoldable pub program_started :
      Bool → (ℕ → Bool) → Manager → String → ℤ → Result (Option (List Action × Manager))
  unfolding update_status
  program_started opens succeeds m host_name port =
      map_ended (λ actions. (actions, record m { host_name = host_name; port = port }))
        (update_status opens succeeds m (
          object (
            ("executor.hostname", text host_name)
            ∷ ("executor.port", number port)
            ∷ ("status", text "RUNNING")
            ∷ [])))

  -- The part of the document of `programFinished` that depends on the program's status.
  unfoldable pub status_fields : ProgramExecutor → List (String × Json)
  status_fields e = elim e.status [
    | exited ↦ ("status", text "EXITED") ∷ ("exitCode", number (exit_code e)) ∷ []
    | signalled ↦ ("status", text "SIGNALLED") ∷ ("exitSignal", number (exit_signal e)) ∷ []
    | cannot_kill ↦ ("status", text "CANNOT_KILL") ∷ []
    | running ↦ []
    | not_started ↦ []
  ]

  -- `programFinished(executor, workDirSize)`
  unfoldable pub program_finished :
      Bool → (ℕ → Bool) → Manager → ProgramExecutor → ℤ → Result (Option (List Action))
  unfolding update_status status_fields
  program_finished opens succeeds m e work_dir_size = update_status opens succeeds m (
      object (
        ("executor.hostname", text m.host_name)
        ∷ ("executor.port", number m.port)
        ∷ ("workDirSize", number work_dir_size)
        ∷ status_fields e))

  -- `fileGenerated(fileTag, jsonObject)`
  unfoldable pub file_generated :
      (ℕ → Bool) → Manager → String → Json → Option (List Action × Manager)
  unfolding post_event is_new
  file_generated succeeds m tag doc =
      if m.uri == ""
      then some ([], m)
      else if is_new (m.last_posted tag) (to_string doc)
      then (post_event succeeds m (Texts.◌++◌ "fileGenerated:" tag) doc >>= λ actions. some (
        actions,
        record m {
          last_posted = λ other. if other == tag then some (to_string doc) else m.last_posted other;
        },
      ))
      else some ([], m)
