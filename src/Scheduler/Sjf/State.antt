-- ===== src/Scheduler/Sjf/State.antt =====
-- python/scheduler/sjf_scheduler.py: the state of `SJFScheduler` and its methods.
use ai_infrastructure_platfo.Prelude.{
  ℕ, ◌==◌, String, Bool, true, false, Option, none, some, List, [], nat_eq, if◌then◌else◌,
}
use mathlib.Core.Option
use ai_infrastructure_platfo.Floats.{Floats, truthy}
use ai_infrastructure_platfo.Dict
use ai_infrastructure_platfo.Heapq.{Heapq}
use ai_infrastructure_platfo.Queue.{PriorityQueue, PrioritizedItem, item_lt}
use ai_infrastructure_platfo.Queue
use ai_infrastructure_platfo.Queue.Runs.{Round, Outcome, dequeue}
use ai_infrastructure_platfo.Queue.Runs
use ai_infrastructure_platfo.Scheduler.Base.{
  BaseScheduler, ScheduledRequest, record_timing, scheduled, count_complete,
}
use ai_infrastructure_platfo.Scheduler.Base
use ai_infrastructure_platfo.Scheduler.Fcfs.{FcfsScheduler, Acquired, got, timed_out, waiting}
use ai_infrastructure_platfo.Scheduler.Fcfs
use ai_infrastructure_platfo.Scheduler.Aging.{AgingConfig, AgingFunction, create_aging}
use ai_infrastructure_platfo.Predictor.Result.{PredictionResult}

pub record SjfScheduler (F : Type 0) : Type 0 where
  pub base : BaseScheduler F
  pub objects : ℕ → ScheduledRequest F
  pub queue : PriorityQueue F ℕ
  pub aging : AgingFunction F
  pub aging_config : AgingConfig F
  pub fallback_to_fcfs : Bool
  pub fcfs_fallback : Option (FcfsScheduler F ℕ)
  pub aging_interval : F
  pub max_retries : ℕ
  pub timeout : F
  pub pending : List (ℕ × ℕ)
  pub use_fallback : Bool
  -- whether `_aging_task` is set, and `_dispatcher_ready`
  pub aging_task : Bool
  pub dispatcher_ready : Bool

abbrev pub is_some : {A : Type 0} → Option A → Bool
is_some none = false
is_some (some a) = true

-- A write to the request object at a reference.
unfoldable pub store :
    {F : Type 0} → (ℕ → ScheduledRequest F) → ℕ → ScheduledRequest F → ℕ → ScheduledRequest F
store objects ref request r = if ref == r then request else objects r

module _ {F : Type 0} where
  -- `SJFScheduler.__init__`, over the memory of the requests
  unfoldable pub init : (ℕ → ScheduledRequest F) → AgingConfig F → Bool → F → ℕ → F → SjfScheduler F
  unfolding Base.init Queue.init Fcfs.init create_aging
  init objects aging_config fallback_to_fcfs aging_interval_sec max_retries request_timeout_sec =
      record {
        base = Base.init "sjf";
        objects = objects;
        queue = Queue.init;
        aging = create_aging aging_config;
        aging_config = aging_config;
        fallback_to_fcfs = fallback_to_fcfs;
        fcfs_fallback = if fallback_to_fcfs then some Fcfs.init else none;
        aging_interval = aging_interval_sec;
        max_retries = max_retries;
        timeout = request_timeout_sec;
        pending = [];
        use_fallback = false;
        aging_task = false;
        dispatcher_ready = false;
      }

  unfoldable pub start : SjfScheduler F → SjfScheduler F
  start s = if s.aging_task then s else record s { aging_task = true; dispatcher_ready = true }

  unfoldable pub stop : SjfScheduler F → SjfScheduler F
  stop s = record s { aging_task = false }

  -- `self._use_fallback and self._fcfs_fallback`: the fallback scheduler, where it is in use.
  unfoldable pub active_fallback : SjfScheduler F → Option (FcfsScheduler F ℕ)
  active_fallback s = if s.use_fallback then s.fcfs_fallback else none

  unfoldable pub complete : SjfScheduler F → ℕ → Bool → SjfScheduler F
  unfolding Fcfs.complete count_complete
  complete s request_id success = record s {
    pending = Dict.remove s.pending request_id;
    fcfs_fallback = Option.map (λ f. Fcfs.complete f request_id success) s.fcfs_fallback;
    base = count_complete s.base success;
  }

  unfoldable pub cancel : SjfScheduler F → ℕ → SjfScheduler F × Bool
  unfolding Fcfs.cancel Queue.cancel
  cancel s request_id =
      let (queue, found) = Queue.cancel s.queue request_id in
      (
        record s {
          pending = Dict.remove s.pending request_id;
          fcfs_fallback = Option.map (λ f. (Fcfs.cancel f request_id).0) s.fcfs_fallback;
          queue = queue;
        },
        found,
      )

  unfoldable pub queue_depth : SjfScheduler F → ℕ
  unfolding active_fallback Fcfs.queue_depth Queue.depth
  queue_depth s = elim (active_fallback s) [
    | some f ↦ Fcfs.queue_depth f
    | none ↦ Queue.depth s.queue
  ]

  -- `on_reload`: the entries "aging" and "fallback_to_fcfs" of the new configuration.
  unfoldable pub on_reload : SjfScheduler F → Option (AgingConfig F) → Option Bool → SjfScheduler F
  unfolding create_aging
  on_reload s none none = s
  on_reload s none (some fallback) = record s { fallback_to_fcfs = fallback }
  on_reload s (some config) none = record s { aging_config = config; aging = create_aging config }
  on_reload s (some config) (some fallback) = record s {
    aging_config = config;
    aging = create_aging config;
    fallback_to_fcfs = fallback;
  }

module _ {F : Type 0} ⦃fl : Floats F⦄ where
  -- The `try` of `submit`: the request with its prediction, and the scheduler after it. The
  -- predictor raises where it gives `none`.
  unfoldable pub predict_step :
      (String → Option (PredictionResult F))
      → SjfScheduler F
      → ScheduledRequest F
      → SjfScheduler F × ScheduledRequest F
  unfolding record_timing
  predict_step predict s request =
      if truthy request.predicted_tokens then (s, request) else elim (predict request.prompt) [
        | some pred ↦ (
          record s {
            base =
                record_timing s.base pred.feature_latency_ms pred.predict_latency_ms (fl.lit 0 0);
          },
          record request { predicted_tokens = pred.predicted_tokens },
        )
        | none ↦ (
          record s { use_fallback = if is_some s.fcfs_fallback then true else s.use_fallback },
          record request { predicted_tokens = fl.lit request.max_tokens 0 },
        )
      ]

module _ {F : Type 0} ⦃fl : Floats F⦄ ⦃hq : Heapq (item_lt {F = F} {P = ℕ})⦄ where
  -- The `if` at the end of `submit`.
  unfoldable pub route : F → SjfScheduler F → ℕ → ScheduledRequest F → SjfScheduler F
  unfolding active_fallback Fcfs.submit Queue.enqueue
  route now s ref request = elim (active_fallback s) [
    | some f ↦ record s { fcfs_fallback = some (Fcfs.submit f request.request_id ref) }
    | none ↦ record s {
      pending = Dict.put s.pending request.request_id ref;
      queue = Queue.enqueue now s.queue request.request_id request.priority ref;
    }
  ]

  -- `submit` of the request at `ref`, with the time `now` of the enqueuing and the measured times
  -- `t0` and `t1`.
  unfoldable pub submit :
      (String → Option (PredictionResult F)) → F → F → F → SjfScheduler F → ℕ → SjfScheduler F
  unfolding predict_step route store scheduled
  submit predict t0 t1 now s ref =
      let (s', predicted) = predict_step predict s (s.objects ref) in
      let request = record predicted {
        priority = predicted.predicted_tokens;
        schedule_ms = some (fl.mul (fl.sub t1 t0) (fl.lit 1000 0));
      } in
      let routed = route now (record s' { objects = store s'.objects ref request }) ref request in
      record routed { base = scheduled routed.base }

  abbrev pub of_outcome : Outcome F ℕ → Acquired ℕ
  of_outcome (Runs.delivered item) = got item.payload
  of_outcome Runs.timed_out = timed_out
  of_outcome Runs.waiting = waiting

  -- `acquire`: of the two ways to wait, the call takes the arguments of the one that it goes.
  unfoldable pub acquire :
      F → Option F → List (Round F ℕ) → List ℕ → Bool → SjfScheduler F → Acquired ℕ × SjfScheduler F
  unfolding active_fallback Fcfs.acquire dequeue
  acquire now timeout rounds arrived expired s = elim (active_fallback s) [
    | some f ↦
        let (result, f') = Fcfs.acquire f timeout arrived expired in
        (result, record s { fcfs_fallback = some f' })
    | none ↦
        let (outcome, queue') = dequeue now timeout s.queue rounds in
        (of_outcome outcome, record s { queue = queue' })
  ]
