-- ===== src/Gateway/State.antt =====
-- python/scheduler/gateway.py: the gateway's state, `SchedulerGateway` and the routes.
use ai_infrastructure_platfo.Prelude.{
  ℕ, ◌+◌, String, Bool, true, false, not, Option, none, some, List, [], ◌∷◌, ◌++◌, nat_eq,
  string_eq, map, ◌==◌, if◌then◌else◌,
}
use mathlib.Core.Option
use ai_infrastructure_platfo.Dict
use ai_infrastructure_platfo.Scheduler.Base.{SchedulerType, Message}
use ai_infrastructure_platfo.Scheduler.Oracle.Interface.{Scheduling}
use Prim.Native.String.{◌++◌ as ◌+s◌}

-- A JSON object with its values as text. A chat completion's reply is one.
abbrev pub Reply : Type 0
Reply = List (String × String)

pub data Future : Type 0 where
  unresolved : Future
  resolved : Reply → Future
  abandoned : Future

-- The Prometheus counters, for the gateway's one scheduler label.
pub record Metrics : Type 0 where
  pub requests_success : ℕ
  pub requests_error : ℕ
  pub timeouts : ℕ
  pub dropped : ℕ
  pub queue_depth : ℕ

-- `S` is the scheduler's state. `futures` and `streams` are the entries "future" and
-- "stream_queue" of the requests' metadata, by request id; a stream's `none` is its end.
pub record Gateway (S : Type 0) : Type 0 where
  pub scheduler_type : SchedulerType
  pub model : String
  pub max_workers : ℕ
  pub scheduler : Option S
  -- whether there is a client, and whether the gateway made it
  pub client : Bool
  pub owns_client : Bool
  pub workers : ℕ
  pub running : Bool
  pub futures : List (ℕ × Future)
  pub streams : List (ℕ × List (Option String))
  pub metrics : Metrics

-- How the vLLM server answers a request: a plain one by a reply or an exception, a streaming one by
-- chunks to the end or by some chunks and an exception.
pub data Backend : Type 0 where
  replied : (status_code : ℕ) (json : Reply) (text : String) → Backend
  refused : (message : String) → Backend
  streamed : (chunks : List String) → Backend
  broken : (chunks : List String) (message : String) → Backend

-- The status and the body of an HTTP response.
pub data Response : Type 0 where
  json_response : Reply → Response
  http_exception : (status_code : ℕ) (detail : String) → Response

-- `"\n".join(f"{role}: {content}" ...)`
unfoldable pub prompt_of : List Message → String
prompt_of [] = ""
prompt_of (m ∷ []) = m.role +s (": " +s m.content)
prompt_of (m ∷ n ∷ ms) = m.role +s (": " +s (m.content +s ("\n" +s prompt_of (n ∷ ms))))

module _ {S : Type 0} where
  -- `SchedulerGateway.__init__` with the configuration's values.
  unfoldable pub init : SchedulerType → String → ℕ → Bool → Gateway S
  init scheduler_type model max_workers has_client = record {
    scheduler_type = scheduler_type;
    model = model;
    max_workers = max_workers;
    scheduler = none;
    client = has_client;
    owns_client = not has_client;
    workers = 0;
    running = false;
    futures = [];
    streams = [];
    metrics = record {
      requests_success = 0;
      requests_error = 0;
      timeouts = 0;
      dropped = 0;
      queue_depth = 0;
    };
  }

  -- `startup`, with the scheduler that `build_scheduler` gives (started, if it is an SJF one).
  unfoldable pub startup : Gateway S → S → Gateway S
  startup g built = if g.running then g else record g {
    scheduler = some built;
    owns_client = if g.client then g.owns_client else true;
    client = true;
    running = true;
    workers = g.workers + g.max_workers;
  }

  -- `shutdown`; `stopped` is the scheduler after `stop`.
  unfoldable shutdown : Gateway S → Option S → Gateway S
  shutdown g stopped = record g {
    running = false;
    scheduler = stopped;
    client = if g.owns_client then false else g.client;
  }

  unfoldable pub set_future : Gateway S → ℕ → Future → Gateway S
  set_future g request_id future = record g { futures = Dict.put g.futures request_id future }

  -- `if not future.done(): future.set_result(reply)`
  unfoldable pub settle : Gateway S → ℕ → Reply → Gateway S
  unfolding set_future
  settle g request_id reply = elim (Dict.get g.futures request_id) [
    | some unresolved ↦ set_future g request_id (resolved reply)
    | _ ↦ g
  ]

  -- `if not future.done(): future.cancel()`
  unfoldable pub abandon : Gateway S → ℕ → Gateway S
  unfolding set_future
  abandon g request_id = elim (Dict.get g.futures request_id) [
    | some unresolved ↦ set_future g request_id abandoned
    | _ ↦ g
  ]

  -- `await queue.put(item)` for each item
  unfoldable pub put_all : Gateway S → ℕ → List (Option String) → Gateway S
  put_all g request_id items = elim (Dict.get g.streams request_id) [
    | some queued ↦ record g { streams = Dict.put g.streams request_id (queued ++ items) }
    | none ↦ g
  ]

-- The loop of `submit_chat_stream` over what the queue holds: the chunks that the client gets, and
-- whether the stream ended.
unfoldable pub read_stream : List (Option String) → List String × Bool
read_stream [] = ([], false)
read_stream (none ∷ items) = ([], true)
read_stream (some chunk ∷ items) =
    let (chunks, ended) = read_stream items in (chunk ∷ chunks, ended)

-- `result["error"]`, empty where there is none.
abbrev pub error_of : Reply → String
error_of reply = elim (Dict.get reply "error") [ some text ↦ text | none ↦ "" ]

-- The end of the route `chat_completions`: `none` is the `TimeoutError` of `submit_chat`.
unfoldable pub respond : Option Reply → Response
respond none = http_exception 504 "Request timed out"
respond (some result) =
    if Dict.has result "error" then http_exception 502 (error_of result) else json_response result

-- `resp.json() if resp.status_code == 200 else {"error": resp.text}`
unfoldable pub result_of : ℕ → Reply → String → Reply
result_of status_code json text = if status_code == 200 then json else ("error", text) ∷ []

module _ {F S : Type 0} (ops : Scheduling F S) where
  -- `QUEUE_DEPTH.labels(...).set(self._scheduler.queue_depth)`
  unfoldable pub set_depth : Gateway S → Gateway S
  set_depth g = elim g.scheduler [
    | some s ↦ record g { metrics = record g.metrics { queue_depth = ops.queue_depth s } }
    | none ↦ g
  ]

  -- `submit_chat` up to its wait: the request at `ref` with the id `request_id`.
  unfoldable pub submit_chat : Gateway S → ℕ → ℕ → Gateway S
  unfolding set_depth set_future
  submit_chat g request_id ref = set_depth (record (set_future g request_id unresolved) {
    scheduler = Option.map (λ s. ops.submit s ref) g.scheduler;
  })

  -- `submit_chat` where its wait times out.
  unfoldable pub timed_out : Gateway S → ℕ → Gateway S
  unfolding abandon
  timed_out g request_id =
      abandon
        (record g {
          scheduler = Option.map (λ s. (ops.cancel s request_id).0) g.scheduler;
          metrics = record g.metrics {
            timeouts = g.metrics.timeouts + 1;
            dropped = g.metrics.dropped + 1;
          };
        })
        request_id

  -- `submit_chat_stream` up to its loop.
  unfoldable pub submit_chat_stream : Gateway S → ℕ → ℕ → Gateway S
  submit_chat_stream g request_id ref = record g {
    streams = Dict.put g.streams request_id [];
    scheduler = Option.map (λ s. ops.submit s ref) g.scheduler;
  }

  -- `await self._scheduler.complete(...)` and the counter under it.
  unfoldable pub count : Gateway S → ℕ → Bool → Gateway S
  count g request_id true = record g {
    scheduler = Option.map (λ s. ops.complete s request_id true) g.scheduler;
    metrics = record g.metrics { requests_success = g.metrics.requests_success + 1 };
  }
  count g request_id false = record g {
    scheduler = Option.map (λ s. ops.complete s request_id false) g.scheduler;
    metrics = record g.metrics { requests_error = g.metrics.requests_error + 1 };
  }

  -- The `try` of `_forward_request` with its `except`, and then its `finally`.
  unfoldable pub forward : Gateway S → ℕ → Backend → Gateway S
  unfolding count settle put_all result_of
  forward g request_id (replied status_code json text) =
      count (settle g request_id (result_of status_code json text)) request_id true
  forward g request_id (refused message) =
      settle (count g request_id false) request_id (("error", message) ∷ [])
  forward g request_id (streamed chunks) =
      count (put_all g request_id (map some chunks ++ none ∷ [])) request_id true
  forward g request_id (broken chunks message) =
      settle (count (put_all g request_id (map some chunks)) request_id false) request_id
        (("error", message) ∷ [])

  unfoldable pub forward_request : Gateway S → ℕ → Backend → Gateway S
  unfolding forward set_depth
  forward_request g request_id backend = set_depth (forward g request_id backend)
