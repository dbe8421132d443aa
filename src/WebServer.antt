-- ===== src/WebServer.antt =====
-- The HTTP handlers (src/WebServerFactory.h, src/WebServerFactory.cpp): which handler a path gets, and
-- what the handlers answer. Poco's parsing of numbers is a parameter.
pub mod Poll
pub mod Kill
pub mod Session
pub mod Wakes
use Prim.Native.String.{String}
use Prim.Native.String as Texts
use text.Mathlib.Text.{◌==◌}
use mathlib.Core.Option
use ml_gridengine_executor.Base as Base
use ml_gridengine_executor.Base.{
  ℕ, ◌*◌, List, [], ◌∷◌, ◌++◌, Bool, true, false, not, ◌&&◌, ◌||◌, Option, none, some, min, ltb,
  if◌then◌else◌, ◌>>=◌, ℤ, pos, add64, sub64, of_word,
}
use ml_gridengine_executor.ReadResult.{ReadResult}
use ml_gridengine_executor.Heap.{PairingHeap, ReadRequest}
use ml_gridengine_executor.OutputBuffer.{OutputBuffer, Reading, returns, waits, read, try_read_at}
use ml_gridengine_executor.ProgramExecutor.{
  ProgramExecutor, Turn, Signal, not_started, running, exited, signalled, cannot_kill, exit_code,
  kill,
}

pub data Handler : Type 0 where
  output_poll_handler kill_handler not_found_handler : Handler

-- `createRequestHandler`, by the path of the request's URI
unfoldable pub create_request_handler : String → Handler
create_request_handler path =
    if path == "/output/_poll"
    then output_poll_handler
    else if path == "/_kill"
    then kill_handler
    else not_found_handler

-- What a client asks of OutputPollHandler; `count` is 0 if it asks for all there is.
pub record Query : Type 0 where
  pub begin : ℤ
  pub timeout : ℕ
  pub count : ℕ

-- The answers of OutputPollHandler. `content` has the position of its first byte.
pub data Reply : Type 0 where
  bad_request gone no_content : Reply
  content : ℕ → List ℕ → Reply

-- The times to wait, in milliseconds.
abbrev pub max_timeout : ℕ
max_timeout = 300 * 1000

abbrev pub default_timeout : ℕ
default_timeout = 60 * 1000

module _ (try_parse_64 : String → Option ℤ) (try_parse_unsigned : String → Option ℕ) where
  -- The loop over the query's parameters; `none` is a bad request.
  unfoldable pub parse_query : ℕ → List (String × String) → Query → Option Query
  parse_query limit [] q = some q
  parse_query limit ((key, value) ∷ rest) q =
      (if key == "begin"
        then Option.map (λ z. record q { begin = z }) (try_parse_64 value)
        else if key == "timeout"
        then Option.map (λ n. record q { timeout = min (n * 1000) limit })
            (try_parse_unsigned value)
        else if key == "count"
        then Option.map (λ n. record q { count = n }) (try_parse_unsigned value)
        else some q)
      >>= parse_query limit rest

-- The size of the handler's buffer.
unfoldable pub buffer_size : ℕ → ℕ → ℕ
buffer_size request_buffer_size count =
    if ltb 0 count then min request_buffer_size count else request_buffer_size

module _ (H : PairingHeap) where
  -- The loops that send what is there at once, from `begin` on, `written` bytes having been sent. The
  -- list holds the output buffer as each turn finds it, as long as the stream is good.
  unfoldable pub send_loop : ℕ → ℕ → List (OutputBuffer H) → ℕ → ℕ → Option (List ℕ)
  send_loop count size [] begin written = some []
  send_loop count size (b ∷ turns) begin written =
      if ltb 0 count && not (ltb written count) then some [] else (do
        (r, bytes) ←
            try_read_at H b (of_word begin)
              (if ltb 0 count then min (sub64 count written) size else size)
        if r.is_timeout || (r.is_closed || not (Base.◌==◌ begin r.begin))
            then some []
            else Option.map (λ more. bytes ++ more)
                (send_loop count size turns (add64 r.begin r.count) (add64 written r.count)))

  -- What OutputPollHandler answers once its first read has returned.
  unfoldable pub respond : ℕ → ℕ → ReadResult × List ℕ → List (OutputBuffer H) → Option Reply
  unfolding send_loop
  respond count size (r, bytes) turns =
      if r.is_closed
      then some gone
      else if r.is_timeout
      then some no_content
      else Option.map (λ more. content r.begin (bytes ++ more))
          (send_loop count size turns (add64 r.begin r.count) r.count)

-- What a call of OutputPollHandler has come to: an answer, or a wait for bytes.
pub data Polling (H : PairingHeap) : Type 0 where
  replied : Reply → Polling H
  waits_for : Query → ReadRequest → OutputBuffer H → Polling H

module _ (try_parse_64 : String → Option ℤ) (try_parse_unsigned : String → Option ℕ)
    (H : PairingHeap) (request_buffer_size : ℕ) where
  -- `OutputPollHandler::handleRequest`, until it answers or waits; `id` is the identity of its request.
  unfoldable pub handle_poll :
      List (String × String) → OutputBuffer H → ℕ → List (OutputBuffer H) → Option (Polling H)
  unfolding parse_query buffer_size respond
  handle_poll parameters b id turns =
      elim (parse_query try_parse_64 try_parse_unsigned max_timeout parameters
        (record { begin = pos 0; timeout = default_timeout; count = 0 })) [
          | none ↦ some (replied bad_request)
          | some q ↦ read H b id q.begin (buffer_size request_buffer_size q.count) >>= λ reading.
              elim reading [
                | returns r bytes ↦
                    Option.map (λ reply. replied reply)
                      (respond H q.count (buffer_size request_buffer_size q.count) (r, bytes) turns)
                | waits x b' ↦ some (waits_for q x b')
              ]
        ]

  -- The rest of the call, once the wait is over.
  unfoldable pub resume_poll :
      Query → ReadResult × List ℕ → List (OutputBuffer H) → Option (Polling H)
  unfolding buffer_size respond
  resume_poll q answer turns =
      Option.map (λ reply. replied reply)
        (respond H q.count (buffer_size request_buffer_size q.count) answer turns)

-- The answers of KillHandler: an internal error, or a status with what is printed after it.
pub data KillReply : Type 0 where
  internal_error : KillReply
  says_exited : ℤ → KillReply
  says_signalled : ℤ → KillReply
  says_cannot_kill : KillReply

unfoldable pub kill_reply : ProgramExecutor → KillReply
kill_reply e = elim e.status [
  | exited ↦ says_exited (exit_code e)
  | signalled ↦ says_signalled (exit_code e)
  | cannot_kill ↦ says_cannot_kill
  | running ↦ internal_error
  | not_started ↦ internal_error
]

-- `KillHandler::handleRequest`, with the times that `kill()` waits
unfoldable pub handle_kill :
    ℤ → ℤ → ℤ → Turn → Turn → Turn → ProgramExecutor → Option (KillReply × ProgramExecutor)
unfolding kill_reply
handle_kill first second final t₁ t₂ t₃ e =
    Option.map (λ (sent, e'). (kill_reply e', e')) (kill first second final t₁ t₂ t₃ e)
