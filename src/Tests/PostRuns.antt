-- ===== src/Tests/PostRuns.antt =====
-- A run of `_postEvent` (src/PersistAndCallbackManager.cpp) over a network that fails twice.
use Prim.Native.String.{String}
use ml_gridengine_executor.Base.{
  ℕ, suc, ◌≤◌, ◌<◌, ◌≡◌, ◌⊎◌, refl, arith, List, true, false, Option, some, ltb, if◌then◌else◌, ℤ,
}
use ml_gridengine_executor.Callback.{Action}
use ml_gridengine_executor.Callback.Post.{
  Uri, Request, Exchange, fails, responds, request_of, requests, post_event_to,
}
use ml_gridengine_executor.Callback.Post.Accepted.{repeat, is_ok, post_event_to-accepted}
use ml_gridengine_executor.Tests.ExecutorRuns.{print, number, manager}

abbrev itself : String → String
itself t = t

abbrev shown : ℤ → String
shown z = "n"

abbrev local : Uri
local = record { host = "localhost"; port = 80; path_and_query = "" }

abbrev parse : String → Option Uri
parse address = some local

-- Nobody answers twice, then the server accepts.
abbrev server : ℕ → Request → Exchange
server i request = if ltb i 2 then fails "Timeout" else responds 200 "OK" "{}"

abbrev sent : Request
sent = request_of itself shown itself "secret" "statusUpdated{}" local

post_event_to-accepted_example :
    (n : ℕ) × (actions : List Action) × (post_event_to itself shown itself parse server print itself
        number itself manager "secret" "statusUpdated" "{}"
      ≡ some actions)
    × (requests (λ d. request_of itself shown itself "secret" d local) actions
        ≡ repeat (suc n) sent)
    × (n ≤ 5)
    × ((i : ℕ) → i < n → is_ok (server i sent) ≡ false)
    × ((is_ok (server n sent) ≡ true) ⊎ (n ≡ 5))
post_event_to-accepted_example =
    post_event_to-accepted print itself number itself itself shown itself parse server manager
      "secret" "statusUpdated" "{}" local (omega arith) refl refl
