-- ===== src/Scheduler/Oracle.antt =====
-- python/scheduler/sjf_scheduler.py: the scheduler that knows the true lengths, and the choice of a
-- scheduler by the configuration.
pub mod Interface
pub mod Perfect
use ai_infrastructure_platfo.Prelude.{
  ℕ, ◌+◌, ◌==◌, String, Bool, true, false, Option, none, some, List, [], ◌∷◌, nat_eq, if◌then◌else◌,
}
use ai_infrastructure_platfo.Floats.{Floats}
use ai_infrastructure_platfo.Heapq.{Heapq}
use ai_infrastructure_platfo.Queue.{PriorityQueue, item_lt}
use ai_infrastructure_platfo.Queue
use ai_infrastructure_platfo.Queue.Runs.{Round, dequeue}
use ai_infrastructure_platfo.Scheduler.Base.{
  BaseScheduler, ScheduledRequest, SchedulerType, fcfs, sjf, oracle_sjf, scheduled, count_complete,
}
use ai_infrastructure_platfo.Scheduler.Base
use ai_infrastructure_platfo.Scheduler.Fcfs.{FcfsScheduler, Acquired}
use ai_infrastructure_platfo.Scheduler.Fcfs
use ai_infrastructure_platfo.Scheduler.Aging.{AgingConfig, AgingPolicy, default_config}
use ai_infrastructure_platfo.Scheduler.Sjf.{SjfScheduler, store, of_outcome}
use ai_infrastructure_platfo.Scheduler.Sjf

pub record OracleScheduler (F : Type 0) : Type 0 where
  pub base : BaseScheduler F
  pub objects : ℕ → ScheduledRequest F
  pub queue : PriorityQueue F ℕ

module _ {F : Type 0} where
  unfoldable pub init : (ℕ → ScheduledRequest F) → OracleScheduler F
  unfolding Base.init Queue.init
  init objects = record { base = Base.init "oracle_sjf"; objects = objects; queue = Queue.init }

  unfoldable pub complete : OracleScheduler F → ℕ → Bool → OracleScheduler F
  unfolding count_complete
  complete s request_id success = record s { base = count_complete s.base success }

  unfoldable pub cancel : OracleScheduler F → ℕ → OracleScheduler F × Bool
  unfolding Queue.cancel
  cancel s request_id =
      let (queue, found) = Queue.cancel s.queue request_id in (record s { queue = queue }, found)

  unfoldable pub queue_depth : OracleScheduler F → ℕ
  unfolding Queue.depth
  queue_depth s = Queue.depth s.queue

module _ {F : Type 0} ⦃fl : Floats F⦄ ⦃hq : Heapq (item_lt {F = F} {P = ℕ})⦄ where
  unfoldable pub submit : F → OracleScheduler F → ℕ → OracleScheduler F
  unfolding store scheduled Queue.enqueue
  submit now s ref =
      let tokens = fl.lit (s.objects ref).max_tokens 0 in
      let request = record (s.objects ref) { predicted_tokens = tokens; priority = tokens } in
      record s {
        objects = store s.objects ref request;
        queue = Queue.enqueue now s.queue request.request_id tokens ref;
        base = scheduled s.base;
      }

  unfoldable pub acquire :
      F → Option F → List (Round F ℕ) → OracleScheduler F → Acquired ℕ × OracleScheduler F
  unfolding dequeue
  acquire now timeout rounds s =
      let (outcome, queue') = dequeue now timeout s.queue rounds in
      (of_outcome outcome, record s { queue = queue' })

-- The entries of the scheduler's configuration, each of which may be absent.
pub record SchedulerConfig (F : Type 0) : Type 0 where
  pub policy : Option AgingPolicy
  pub factor : Option F
  pub max_boost : Option F
  pub base_priority : Option F
  pub fallback_to_fcfs : Option Bool
  pub aging_interval_sec : Option F
  pub request_timeout_sec : Option F

abbrev get_or : {A : Type 0} → Option A → A → A
get_or none d = d
get_or (some a) d = a

pub data Built (F : Type 0) : Type 0 where
  fcfs_scheduler : FcfsScheduler F ℕ → Built F
  oracle_scheduler : OracleScheduler F → Built F
  sjf_scheduler : SjfScheduler F → Built F
  -- `ValueError("SJF scheduler requires a predictor")`
  value_error : Built F

module _ {F : Type 0} ⦃fl : Floats F⦄ where
  -- `AgingConfig(**config.get("aging", {}))`
  unfoldable aging_config_of : SchedulerConfig F → AgingConfig F
  unfolding default_config
  aging_config_of c =
      let d : AgingConfig F = default_config in
      record {
        policy = get_or c.policy d.policy;
        factor = get_or c.factor d.factor;
        max_boost = get_or c.max_boost d.max_boost;
        base_priority = get_or c.base_priority d.base_priority;
      }

  unfoldable pub build_scheduler :
      SchedulerType → Bool → SchedulerConfig F → (ℕ → ScheduledRequest F) → Built F
  unfolding Fcfs.init init Sjf.init aging_config_of
  build_scheduler fcfs has_predictor config objects = fcfs_scheduler Fcfs.init
  build_scheduler oracle_sjf has_predictor config objects = oracle_scheduler (init objects)
  build_scheduler sjf has_predictor config objects =
      if has_predictor
      then sjf_scheduler (
          Sjf.init objects (aging_config_of config) (get_or config.fallback_to_fcfs true)
            (get_or config.aging_interval_sec (fl.lit 5 1)) 3
            (get_or config.request_timeout_sec (fl.lit 300 0)))
      else value_error
