-- ===== src/Scheduler/Base.antt =====
-- python/scheduler/base_scheduler.py: requests, and the counters that every scheduler keeps.
use ai_infrastructure_platfo.Prelude.{
  ℕ, ◌+◌, String, Bool, true, false, Option, List, [], ◌∷◌, ◌++◌,
}
use ai_infrastructure_platfo.Floats.{Floats, mean}

pub data SchedulerType : Type 0 where
  fcfs sjf oracle_sjf : SchedulerType

unfoldable pub value : SchedulerType → String
value fcfs = "fcfs"
value sjf = "sjf"
value oracle_sjf = "oracle_sjf"

pub record Message : Type 0 where
  pub role : String
  pub content : String

-- Of `metadata` the schedulers write the entry "schedule_ms" only.
pub record ScheduledRequest (F : Type 0) : Type 0 where
  pub request_id : ℕ
  pub prompt : String
  pub messages : List Message
  pub max_tokens : ℕ
  pub predicted_tokens : F
  pub priority : F
  pub enqueue_time : F
  pub schedule_ms : Option F

pub record SchedulerStats (F : Type 0) : Type 0 where
  pub scheduler_type : String
  pub queue_depth : ℕ
  pub total_scheduled : ℕ
  pub total_completed : ℕ
  pub total_errors : ℕ
  pub avg_feature_ms : F
  pub avg_predict_ms : F
  pub avg_schedule_ms : F

-- The fields of `BaseScheduler`.
pub record BaseScheduler (F : Type 0) : Type 0 where
  pub name : String
  pub total_scheduled : ℕ
  pub total_completed : ℕ
  pub total_errors : ℕ
  pub feature_latencies : List F
  pub predict_latencies : List F
  pub schedule_latencies : List F

module _ {F : Type 0} where
  -- `BaseScheduler.__init__`
  unfoldable pub init : String → BaseScheduler F
  init name = record {
    name = name;
    total_scheduled = 0;
    total_completed = 0;
    total_errors = 0;
    feature_latencies = [];
    predict_latencies = [];
    schedule_latencies = [];
  }

  unfoldable pub record_timing : BaseScheduler F → F → F → F → BaseScheduler F
  record_timing b feature_ms predict_ms schedule_ms = record b {
    feature_latencies = b.feature_latencies ++ feature_ms ∷ [];
    predict_latencies = b.predict_latencies ++ predict_ms ∷ [];
    schedule_latencies = b.schedule_latencies ++ schedule_ms ∷ [];
  }

  -- `self._total_scheduled += 1`
  unfoldable pub scheduled : BaseScheduler F → BaseScheduler F
  scheduled b = record b { total_scheduled = b.total_scheduled + 1 }

  -- The counting at the end of every `complete`.
  unfoldable pub count_complete : BaseScheduler F → Bool → BaseScheduler F
  count_complete b true = record b { total_completed = b.total_completed + 1 }
  count_complete b false = record b { total_errors = b.total_errors + 1 }

  unfoldable pub stats : ⦃fl : Floats F⦄ → BaseScheduler F → ℕ → SchedulerStats F
  stats b queue_depth = record {
    scheduler_type = b.name;
    queue_depth = queue_depth;
    total_scheduled = b.total_scheduled;
    total_completed = b.total_completed;
    total_errors = b.total_errors;
    avg_feature_ms = mean b.feature_latencies;
    avg_predict_ms = mean b.predict_latencies;
    avg_schedule_ms = mean b.schedule_latencies;
  }
