-- ===== src/Gateway/Clients.antt =====
-- python/scheduler/gateway.py: what the clients of the gateway get.
use mathlib.Core.Option
use mathlib.Core.List.{append-nil}
use ai_infrastructure_platfo.Prelude.{
  ℕ, ◌+◌, ◌≡◌, refl, sym, ap, ◌∙◌, String, Bool, true, false, Option, none, some, List, [], ◌∷◌,
  arith, nat_eq, string_eq, ◌==◌, ==_iff, if◌then◌else◌, map, ◌++◌,
}
use ai_infrastructure_platfo.Dict
use ai_infrastructure_platfo.Dict.{get-put, get-has}
use ai_infrastructure_platfo.Scheduler.Oracle.Interface.{Scheduling}
use ai_infrastructure_platfo.Gateway.State.{
  Gateway, Backend, replied, refused, streamed, broken, Future, unresolved, resolved, abandoned,
  Reply, set_future, settle, abandon, put_all, read_stream, result_of, set_depth, count, forward,
  forward_request, submit_chat, submit_chat_stream, timed_out, respond, error_of, Response,
  json_response, http_exception,
}
use ai_infrastructure_platfo.Gateway.Forward.{
  answer, is_plain, forward_request-futures, set_depth-others,
}

-- What `submit_chat` gives to its route once the future is resolved.
abbrev pub awaited : Option Future → Option Reply
awaited none = none
awaited (some unresolved) = none
awaited (some (resolved reply)) = some reply
awaited (some abandoned) = none

-- The response to a plain request by how the server answers.
abbrev pub expected : Backend → Response
expected (replied status_code json text) =
    if status_code == 200
    then (if Dict.has json "error" then http_exception 502 (error_of json) else json_response json)
    else http_exception 502 text
expected (refused message) = http_exception 502 message
expected (streamed chunks) = http_exception 500 ""
expected (broken chunks message) = http_exception 500 ""

respond-answer : (b : Backend) → is_plain b ≡ true → respond (some (answer b)) ≡ expected b
unfolding respond result_of Dict.has Dict.get
respond-answer (replied status_code json text) p = ground arith
respond-answer (refused message) p = refl
respond-answer (streamed chunks) p = cc
respond-answer (broken chunks message) p = cc

module _ {F S : Type 0} (ops : Scheduling F S) where
  pub submit_chat-future :
      (g : Gateway S) (k ref : ℕ) → Dict.get (submit_chat ops g k ref).futures k ≡ some unresolved
  unfolding submit_chat set_future
  submit_chat-future g k ref =
      let h = set_depth-others ops (record (set_future g k unresolved) {
        scheduler = Option.map (λ s. ops.submit s ref) g.scheduler;
      }) in
      ground (arith, h.0, get-put g.futures k k unresolved, ==_iff k k)

  pub waiting_response :
      (g : Gateway S) (k : ℕ) (b : Backend)
      → Dict.get g.futures k ≡ some unresolved
      → is_plain b ≡ true
      → respond (awaited (Dict.get (forward_request ops g k b).futures k)) ≡ expected b
  waiting_response g k b first p =
      let moved = forward_request-futures ops g k k b p in
      let settled : Dict.get (forward_request ops g k b).futures k ≡ some (resolved (answer b)) =
        ground (arith, ==_iff k k) in
      ap (λ f. respond (awaited f)) settled ∙ respond-answer b p

  -- A plain request that is forwarded while its client waits: the client gets the server's JSON if
  -- the server answers with 200 and no "error" entry, and the status 502 with the server's text
  -- or with the exception's message otherwise.
  pub chat_response :
      (g : Gateway S) (k ref : ℕ) (b : Backend)
      → is_plain b ≡ true
      → respond (awaited (Dict.get (forward_request ops (submit_chat ops g k ref) k b).futures k))
        ≡ expected b
  chat_response g k ref b p =
      waiting_response (submit_chat ops g k ref) k b (submit_chat-future g k ref) p

  abandon-futures :
      (g : Gateway S) (k : ℕ)
      → Dict.get g.futures k ≡ some unresolved
      → Dict.get (abandon g k).futures k ≡ some abandoned
  unfolding abandon set_future
  abandon-futures g k e =
      rw (e, abandon) (ground (arith, get-put g.futures k k abandoned, ==_iff k k))

  -- A client whose wait times out gets the status 504, is counted as timed out and dropped, and the
  -- scheduler is told to cancel; a reply that comes later does not revive the request.
  pub timeout_response :
      (g : Gateway S) (s : S) (k : ℕ) (b : Backend)
      → Dict.get g.futures k ≡ some unresolved
      → g.scheduler ≡ some s
      → is_plain b ≡ true
      → ((timed_out ops g k).scheduler ≡ some (ops.cancel s k).0)
        × ((timed_out ops g k).metrics.timeouts ≡ g.metrics.timeouts + 1)
        × ((timed_out ops g k).metrics.dropped ≡ g.metrics.dropped + 1)
        × (Dict.get (forward_request ops (timed_out ops g k) k b).futures k ≡ some abandoned)
        × (respond (awaited (Dict.get (timed_out ops g k).futures k))
            ≡ http_exception 504 "Request timed out")
  unfolding timed_out respond abandon set_future
  timeout_response g s k b e f p =
      let g' : Gateway S = timed_out ops g k in
      let given_up : Dict.get g'.futures k ≡ some abandoned =
        ground (arith, get-put g.futures k k abandoned, ==_iff k k) in
      let late = forward_request-futures ops g' k k b p in
      (
        ground arith,
        ground arith,
        ground arith,
        ground (arith, ==_iff k k),
        ap (λ t. respond (awaited t)) given_up,
      )

read_stream-chunks :
    (chunks : List String) (rest : List (Option String))
    → read_stream (map some chunks ++ rest) ≡ (chunks ++ (read_stream rest).0, (read_stream rest).1)
unfolding read_stream
read_stream-chunks [] rest = refl
read_stream-chunks (c ∷ chunks) rest = rw (read_stream-chunks chunks rest)

module _ {F S : Type 0} (ops : Scheduling F S) where
  -- What the client of a streaming request has read once the request was forwarded.
  abbrev pub stream_read : Gateway S → ℕ → ℕ → Backend → Option (List String × Bool)
  stream_read g k ref b =
      Option.map read_stream
        (Dict.get (forward_request ops (submit_chat_stream ops g k ref) k b).streams k)

  put_all-streams :
      (g : Gateway S) (k : ℕ) (items : List (Option String))
      → Dict.get g.streams k ≡ some []
      → Dict.get (put_all g k items).streams k ≡ some items
  unfolding put_all
  put_all-streams g k items e =
      rw (e, put_all) (ground (arith, get-put g.streams k k items, ==_iff k k))

  count-streams : (g : Gateway S) (k : ℕ) (b : Bool) → (count ops g k b).streams ≡ g.streams
  unfolding count
  count-streams g k true = refl
  count-streams g k false = refl

  set_depth-streams : (g : Gateway S) → (set_depth ops g).streams ≡ g.streams
  unfolding set_depth
  set_depth-streams g = ground arith

  settle-streams : (g : Gateway S) (k : ℕ) (reply : Reply) → (settle g k reply).streams ≡ g.streams
  unfolding settle set_future
  settle-streams g k reply = ground arith

  submit_chat_stream-streams :
      (g : Gateway S) (k ref : ℕ) → Dict.get (submit_chat_stream ops g k ref).streams k ≡ some []
  unfolding submit_chat_stream
  submit_chat_stream-streams g k ref = ground (arith, get-put g.streams k k [], ==_iff k k)

  -- A stream that the server sends to its end reaches the client whole, and ends.
  pub stream_whole :
      (g : Gateway S) (k ref : ℕ) (chunks : List String)
      → stream_read g k ref (streamed chunks) ≡ some (chunks, true)
  unfolding forward_request forward read_stream
  stream_whole g k ref chunks =
      let g' : Gateway S = submit_chat_stream ops g k ref in
      let items : List (Option String) = map some chunks ++ none ∷ [] in
      let put = put_all-streams g' k items (submit_chat_stream-streams g k ref) in
      let same =
        set_depth-streams (count ops (put_all g' k items) k true)
        ∙ count-streams (put_all g' k items) k true in
      ap (λ d. Option.map read_stream (Dict.get d k)) same
      ∙ ap (Option.map read_stream) put
      ∙ ap some (read_stream-chunks chunks (none ∷ []) ∙ ap (λ l. (l, true)) (append-nil chunks))

  -- Where the server breaks a stream off, the client gets the chunks so far and then waits: nothing
  -- ends its stream.
  pub stream_broken :
      (g : Gateway S) (k ref : ℕ) (chunks : List String) (message : String)
      → stream_read g k ref (broken chunks message) ≡ some (chunks, false)
  unfolding forward_request forward read_stream
  stream_broken g k ref chunks message =
      let g' : Gateway S = submit_chat_stream ops g k ref in
      let items : List (Option String) = map some chunks in
      let reply : Reply = ("error", message) ∷ [] in
      let failed = count ops (put_all g' k items) k false in
      let put = put_all-streams g' k items (submit_chat_stream-streams g k ref) in
      let same =
        set_depth-streams (settle failed k reply)
        ∙ settle-streams failed k reply
        ∙ count-streams (put_all g' k items) k false in
      ap (λ d. Option.map read_stream (Dict.get d k)) same
      ∙ ap (Option.map read_stream) put
      ∙ ap some (
          ap read_stream (sym (append-nil (map some chunks)))
          ∙ read_stream-chunks chunks []
          ∙ ap (λ l. (l, false)) (append-nil chunks))
