-- ===== src/Benchmark/Shared.antt =====
-- python/benchmark/sjf.py: the simulated benchmark over a scheduler behind its interface, with the
-- predictor or with the true lengths. The workers are coroutines of one event loop; random numbers,
-- times and the predictor's results are arguments. Where the interface's `acquire` gives nothing, the
-- call here, which has no timeout, goes on waiting.
pub mod Counted
use ai_infrastructure_platfo.Prelude.{
  ℕ, zero, suc, ◌+◌, ◌%◌, String, Bool, true, false, not, ◌&&◌, Option, none, some, List, [], ◌∷◌,
  ◌++◌, length, get_or, ltb, if◌then◌else◌,
}
use ai_infrastructure_platfo.Floats.{Floats}
use ai_infrastructure_platfo.Predictor.Result.{PredictionResult}
use ai_infrastructure_platfo.Scheduler.Base.{ScheduledRequest, Message}
use ai_infrastructure_platfo.Scheduler.Oracle.Interface.{Scheduling}
use ai_infrastructure_platfo.Benchmark.Metrics.{RequestMetric}
use ai_infrastructure_platfo.Benchmark.Simulation.{prompts}

-- What a worker knows before its `acquire`, and with the request that it acquired.
pub record Start (F : Type 0) : Type 0 where
  pub t_enqueue : F
  pub feature_ms : F
  pub predict_ms : F

pub record Service (F : Type 0) : Type 0 where
  pub acquired : ℕ
  pub wait_ms : F
  pub start : Start F

pub record Simulation (F S : Type 0) : Type 0 where
  pub scheduler : S
  pub blocked : List (Start F)
  pub running : List (Service F)
  pub metrics : List (RequestMetric F)

-- A worker starts with the request at `ref`; the worker at a place among those that wait reads the
-- queue again; the worker at a place among the running ones ends its service time.
pub data Event (F : Type 0) : Type 0 where
  begins : (ref : ℕ) (start : Start F) (acquired_at : F) → Event F
  wakes : (place : ℕ) (acquired_at : F) → Event F
  ends : (place : ℕ) (svc_ms : F) → Event F

-- The element at a place, with the others.
unfoldable pub take_at : {A : Type 0} → List A → ℕ → Option (A × List A)
take_at [] place = none
take_at (x ∷ xs) zero = some (x, xs)
take_at (x ∷ xs) (suc place) = elim (take_at xs place) [
  | none ↦ none
  | some (y, ys) ↦ some (y, x ∷ ys)
]

module _ {F : Type 0} ⦃fl : Floats F⦄ where
  -- The request of the worker `i` and the measured times of its prediction, of which there are none
  -- without a predictor or with the oracle.
  unfoldable pub request_of :
      Bool → Option (String → PredictionResult F) → ℕ → ℕ → ℕ → F → ScheduledRequest F × F × F
  request_of use_oracle predictor i request_id max_tokens created_at =
      let prompt = get_or prompts (i % length prompts) "" in
      let request : F → ScheduledRequest F = λ (predicted : F). record {
        request_id = request_id;
        prompt = prompt;
        messages = record { role = "user"; content = prompt } ∷ [];
        max_tokens = max_tokens;
        predicted_tokens = predicted;
        priority = predicted;
        enqueue_time = created_at;
        schedule_ms = none;
      } in
      if use_oracle
      then (request (fl.lit max_tokens 0), fl.lit 0 0, fl.lit 0 0)
      else elim predictor [
        | none ↦ (request (fl.lit 0 0), fl.lit 0 0, fl.lit 0 0)
        | some predict ↦
            let pred = predict prompt in
            (request pred.predicted_tokens, pred.feature_latency_ms, pred.predict_latency_ms)
      ]

module _ {F S : Type 0} ⦃fl : Floats F⦄ (ops : Scheduling F S) (id_of max_tokens_of : ℕ → ℕ)
    (concurrency : ℕ) where
  unfoldable pub init : S → Simulation F S
  init scheduler = record { scheduler = scheduler; blocked = []; running = []; metrics = [] }

  -- The end of `acquire`: a worker with a request, or one that waits.
  unfoldable pub settled : Simulation F S → Start F → F → Option ℕ × S → Simulation F S
  settled s start acquired_at (none, scheduler) = record s {
    scheduler = scheduler;
    blocked = s.blocked ++ start ∷ [];
  }
  settled s start acquired_at (some ref, scheduler) = record s {
    scheduler = scheduler;
    running =
        s.running
        ++ record {
          acquired = ref;
          wait_ms = fl.mul (fl.sub acquired_at start.t_enqueue) (fl.lit 1000 0);
          start = start;
        }
          ∷ [];
  }

  -- `worker` up to its service time. While the semaphore has no place the worker does not start.
  unfoldable pub begin : Simulation F S → ℕ → Start F → F → Simulation F S
  unfolding settled
  begin s ref start acquired_at =
      if ltb (length s.running + length s.blocked) concurrency
      then settled s start acquired_at (ops.acquire (ops.submit s.scheduler ref))
      else s

  -- `worker` after its service time
  unfoldable pub finish : Simulation F S → F → Service F → List (Service F) → Simulation F S
  finish s svc_ms w others = record s {
    scheduler = ops.complete s.scheduler (id_of w.acquired) true;
    running = others;
    metrics =
        s.metrics
        ++ record {
          success = true;
          e2e_ms = fl.add w.wait_ms svc_ms;
          queue_wait_ms = w.wait_ms;
          feature_ms = w.start.feature_ms;
          predict_ms = w.start.predict_ms;
          schedule_ms = fl.lit 1 1;
          tokens = max_tokens_of w.acquired;
          concurrency = concurrency;
        }
          ∷ [];
  }

  unfoldable pub step : Simulation F S → Event F → Simulation F S
  unfolding begin settled finish take_at
  step s (begins ref start acquired_at) = begin s ref start acquired_at
  step s (wakes place acquired_at) = elim (take_at s.blocked place) [
    | none ↦ s
    | some (start, others) ↦
        settled (record s { blocked = others }) start acquired_at (ops.acquire s.scheduler)
  ]
  step s (ends place svc_ms) = elim (take_at s.running place) [
    | none ↦ s
    | some (w, others) ↦ finish s svc_ms w others
  ]

  unfoldable pub run : Simulation F S → List (Event F) → Simulation F S
  unfolding step
  run s [] = s
  run s (e ∷ events) = run (step s e) events
