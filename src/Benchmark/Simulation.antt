-- ===== src/Benchmark/Simulation.antt =====
-- python/benchmark/fcfs.py: the simulated benchmark of the first-come-first-served scheduler. The
-- workers are coroutines of one event loop: from `submit` to `acquire` on an unbounded queue no one
-- waits while there is an item, so a worker goes from its start to its service time in one step.
-- Random numbers and times are arguments.
pub mod Counts
use ai_infrastructure_platfo.Prelude.{
  ℕ, zero, suc, ◌+◌, ◌%◌, String, Bool, true, false, Option, none, some, List, [], ◌∷◌, ◌++◌,
  length, get_or, ltb, nat_eq, if◌then◌else◌,
}
use ai_infrastructure_platfo.Floats.{Floats}
use ai_infrastructure_platfo.Scheduler.Base.{ScheduledRequest, Message}
use ai_infrastructure_platfo.Scheduler.Fcfs.{FcfsScheduler, Acquired, got, timed_out, waiting}
use ai_infrastructure_platfo.Scheduler.Fcfs
use ai_infrastructure_platfo.Benchmark.Metrics.{RequestMetric}

-- `PROMPTS`
abbrev pub prompts : List String
prompts =
    "What is machine learning?" ∷ "Write a Python sort function."
    ∷ "Explain quantum computing briefly." ∷ "List 5 database optimization tips."
    ∷ "How does attention work in transformers?" ∷ "Debug this SQL query."
    ∷ "Summarize the history of AI." ∷ "Compare REST and GraphQL." ∷ []

-- A worker that has acquired a request, with the wait that it measured.
pub record Service (F : Type 0) : Type 0 where
  pub acquired : ScheduledRequest F
  pub wait_ms : F

-- `blocked` counts the workers that wait in `acquire`, `running` has those in their service time.
pub record Simulation (F : Type 0) : Type 0 where
  pub scheduler : FcfsScheduler F (ScheduledRequest F)
  pub running : List (Service F)
  pub blocked : ℕ
  pub metrics : List (RequestMetric F)

-- A worker starts, or the worker at a place among the running ones ends its service time.
pub data Event (F : Type 0) : Type 0 where
  begins :
      (i : ℕ) (request_id : ℕ) (max_tokens : ℕ) (created_at : F) (t_enqueue : F) (acquired_at : F)
      → Event F
  ends : (place : ℕ) (svc_ms : F) → Event F

module _ {F : Type 0} where
  unfoldable pub init : Simulation F
  unfolding Fcfs.init
  init = record { scheduler = Fcfs.init; running = []; blocked = 0; metrics = [] }

  -- The element at a place, with the others.
  unfoldable pub pick : List (Service F) → ℕ → Option (Service F × List (Service F))
  pick [] place = none
  pick (w ∷ ws) zero = some (w, ws)
  pick (w ∷ ws) (suc place) = elim (pick ws place) [ none ↦ none | some (v, vs) ↦ some (v, w ∷ vs) ]

module _ {F : Type 0} ⦃fl : Floats F⦄ (concurrency : ℕ) where
  -- The request of the worker `i`.
  unfoldable request_of : ℕ → ℕ → ℕ → F → ScheduledRequest F
  request_of i request_id max_tokens created_at =
      let prompt = get_or prompts (i % length prompts) "" in
      record {
        request_id = request_id;
        prompt = prompt;
        messages = record { role = "user"; content = prompt } ∷ [];
        max_tokens = max_tokens;
        predicted_tokens = fl.lit max_tokens 0;
        priority = fl.lit max_tokens 0;
        enqueue_time = created_at;
        schedule_ms = none;
      }

  abbrev started :
      Simulation F
      → F
      → Acquired (ScheduledRequest F) × FcfsScheduler F (ScheduledRequest F)
      → Simulation F
  started s wait_ms (got acquired, scheduler) = record s {
    scheduler = scheduler;
    running = s.running ++ record { acquired = acquired; wait_ms = wait_ms } ∷ [];
  }
  started s wait_ms (timed_out, scheduler) = record s { scheduler = scheduler }
  started s wait_ms (waiting, scheduler) = record s {
    scheduler = scheduler;
    blocked = s.blocked + 1;
  }

  -- `worker` up to its service time. While the semaphore has no place the worker does not start.
  unfoldable pub begin : Simulation F → ℕ → ScheduledRequest F → F → Simulation F
  unfolding Fcfs.submit Fcfs.acquire
  begin s request_id req wait_ms =
      if ltb (length s.running + s.blocked) concurrency
      then started s wait_ms (Fcfs.acquire (Fcfs.submit s.scheduler request_id req) none [] false)
      else s

  -- `worker` after its service time
  unfoldable pub finish : Simulation F → F → Service F × List (Service F) → Simulation F
  unfolding Fcfs.complete
  finish s svc_ms (w, others) = record s {
    scheduler = Fcfs.complete s.scheduler w.acquired.request_id true;
    running = others;
    metrics =
        s.metrics
        ++ record {
          success = true;
          e2e_ms = fl.add w.wait_ms svc_ms;
          queue_wait_ms = w.wait_ms;
          feature_ms = fl.lit 0 0;
          predict_ms = fl.lit 0 0;
          schedule_ms = fl.lit 0 0;
          tokens = w.acquired.max_tokens;
          concurrency = concurrency;
        }
          ∷ [];
  }

  unfoldable pub step : Simulation F → Event F → Simulation F
  unfolding begin finish pick request_of
  step s (begins i request_id max_tokens created_at t_enqueue acquired_at) =
      begin s request_id (request_of i request_id max_tokens created_at)
        (fl.mul (fl.sub acquired_at t_enqueue) (fl.lit 1000 0))
  step s (ends place svc_ms) = elim (pick s.running place) [
    | none ↦ s
    | some found ↦ finish s svc_ms found
  ]

  unfoldable pub run : Simulation F → List (Event F) → Simulation F
  unfolding step
  run s [] = s
  run s (e ∷ events) = run (step s e) events
