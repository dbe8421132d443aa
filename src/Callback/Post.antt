-- ===== src/Callback/Post.antt =====
-- The HTTP request by which a document is posted (src/PersistAndCallbackManager.cpp, `post`). Poco's
-- parsing of addresses, its Base64 encoder and its HTTP client are parameters: what becomes of a
-- request is what the server makes of it.
pub mod Accepted
use Prim.Native.String.{String, len}
use Prim.Native.String as Texts
use text.Mathlib.Text.{◌==◌}
use ml_gridengine_executor.Base.{
  ℕ, List, [], ◌∷◌, Bool, true, false, not, Option, none, some, if◌then◌else◌, ℤ, pos,
}
use ml_gridengine_executor.Base
use ml_gridengine_executor.Callback.{Action, Manager, saves, posts, sleeps, post_event}

-- What `Poco::URI` gives of an address.
pub record Uri : Type 0 where
  pub host : String
  pub port : ℕ
  pub path_and_query : String

pub record Request : Type 0 where
  pub host : String
  pub port : ℕ
  pub method : String
  pub path : String
  pub content_type : String
  pub content_length : ℕ
  pub authentication : Option String
  pub body : String

-- What becomes of a request: the connection fails, with a text that says why, or the server responds
-- with a status, a reason and a body.
pub data Exchange : Type 0 where
  fails : String → Exchange
  responds : ℕ → String → String → Exchange

-- How `post` ends: it logs the response, or throws an HTTPError or another exception.
pub data Posted : Type 0 where
  accepted : String → Posted
  http_error : ℕ → String → Posted
  other_error : String → Posted

module _ (encode_token : String → String) (decimal : ℤ → String) (trim : String → String) where
  -- "Prepare for the request"
  unfoldable pub request_of : String → String → Uri → Request
  request_of token doc uri = record {
    host = uri.host;
    port = uri.port;
    method = "POST";
    path = if uri.path_and_query == "" then "/" else uri.path_and_query;
    content_type = "application/json";
    content_length = len doc;
    authentication =
        if not (token == "") then some (Texts.◌++◌ "TOKEN " (encode_token token)) else none;
    body = doc;
  }

  -- "Now get the response"
  unfoldable pub outcome : Exchange → Posted
  outcome (fails why) = other_error why
  outcome (responds status reason body) =
      if not (Base.◌==◌ status 200)
      then http_error status (Texts.◌++◌ (decimal (pos status)) (Texts.◌++◌ " " reason))
      else accepted (trim body)

  -- `post(Poco::URI(_uri), _token, _timeout, doc)`; an address that is none is an exception.
  unfoldable pub post :
      (String → Option Uri) → (Request → Exchange) → String → String → String → Posted
  unfolding request_of outcome
  post parse_uri server uri token doc = elim (parse_uri uri) [
    | none ↦ other_error uri
    | some u ↦ outcome (server (request_of token doc u))
  ]

-- Whether the `try` of `_postEvent` comes to its `break`.
unfoldable pub is_posted : Posted → Bool
is_posted (accepted body) = true
is_posted (http_error status reason) = false
is_posted (other_error why) = false

-- The requests that the actions of an event send, each document by one request.
unfoldable pub requests : (String → Request) → List Action → List Request
requests request [] = []
requests request (posts doc ∷ actions) = request doc ∷ requests request actions
requests request (saves file doc ∷ actions) = requests request actions
requests request (sleeps seconds ∷ actions) = requests request actions

module _ (encode_token : String → String) (decimal : ℤ → String) (trim : String → String)
    (parse_uri : String → Option Uri) (server : ℕ → Request → Exchange) where
  -- Which attempts to post a document succeed, where the server makes `server i` of the `i`-th.
  unfoldable pub attempt : Manager → String → String → ℕ → Bool
  unfolding post is_posted
  attempt m token doc i =
      is_posted (post encode_token decimal trim parse_uri (server i) m.uri token doc)

  -- `_postEvent(eventType, doc)` over a network.
  unfoldable pub post_event_to {ℓ} :
      {Json : Type ℓ}
      → (List (String × Json) → Json)
      → (String → Json)
      → (ℤ → Json)
      → (Json → String)
      → Manager
      → String
      → String
      → Json
      → Option (List Action)
  unfolding post_event attempt
  post_event_to object text number to_string m token event_type doc =
      post_event object text number to_string
        (attempt m token (to_string (object (("eventType", text event_type) ∷ ("data", doc) ∷ []))))
        m event_type doc
