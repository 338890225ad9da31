-- ===== src/Tests/SjfTests.antt =====
-- python/scheduler/sjf_scheduler.py: two queued requests, predictions and rounds of the aging loop.
use ai_infrastructure_platfo.Prelude.{
  ℕ, ◌≡◌, refl, ◌≤◌, String, true, false, ◌&&◌, Option, none, some, List, [], ◌∷◌, length, arith,
  nat_eq,
}
use ai_infrastructure_platfo.Prelude.Int.{ℤ}
use ai_infrastructure_platfo.Prelude.Counts.{NoneOf}
use ai_infrastructure_platfo.Floats.Fixed.{fixed, fixed-FloatOrder}
use ai_infrastructure_platfo.Dict
use ai_infrastructure_platfo.Heapq.{IsHeap}
use ai_infrastructure_platfo.Heapq.Sorted.{sorted_heap, sort, insert, IsSorted-IsHeap}
use ai_infrastructure_platfo.Queue.{PrioritizedItem, item_of, item_lt, next_item, pop_live, deliver}
use ai_infrastructure_platfo.Queue.Runs.{Round}
use ai_infrastructure_platfo.Queue.Order.{Distinct, is_live}
use ai_infrastructure_platfo.Scheduler.Base.{ScheduledRequest}
use ai_infrastructure_platfo.Scheduler.Fcfs.{got}
use ai_infrastructure_platfo.Scheduler.Aging.{AgingConfig, default_config, create_aging, boost}
use ai_infrastructure_platfo.Scheduler.Sjf.{SjfScheduler, active_fallback, submit, acquire}
use ai_infrastructure_platfo.Scheduler.Aging
use ai_infrastructure_platfo.Scheduler.Sjf.Loop.{Call, acquires, ages, aging_round, run}
use ai_infrastructure_platfo.Scheduler.Sjf.Fallback.{Stuck, submit_strands}
use ai_infrastructure_platfo.Scheduler.Sjf.Routing.{acquire_shortest}
use ai_infrastructure_platfo.Scheduler.Sjf.Expiry.{aging_round_expires}
use ai_infrastructure_platfo.Predictor.Result.{PredictionResult}
use ai_infrastructure_platfo.Tests.Setup.{float, test_heap}
use ai_infrastructure_platfo.Scheduler.Aging.{linear_boost}
use ai_infrastructure_platfo.Scheduler.Sjf.Compounding.{aged, lowers, aging_round-aging_round}
use ai_infrastructure_platfo.Scheduler.Oracle.{OracleScheduler}
use ai_infrastructure_platfo.Scheduler.Oracle
use ai_infrastructure_platfo.Scheduler.Oracle.Perfect.{submit-acquire}
use ai_infrastructure_platfo.Tests.SchedulerTests.{no_requests, aging}

-- The request objects: the reference is the id.
abbrev request_at : ℕ → ScheduledRequest ℤ
request_at ref = record {
  request_id = ref;
  prompt = "hello";
  messages = [];
  max_tokens = 512;
  predicted_tokens = float 0;
  priority = float 0;
  enqueue_time = float 0;
  schedule_ms = none;
}

-- Requests 1 and 2 are queued, 2 with the shorter prediction.
abbrev busy : SjfScheduler ℤ
busy = record {
  base = no_requests.base;
  objects = request_at;
  queue = record {
    heap = item_of (float 20) (float 1) 2 2 ∷ item_of (float 90) (float 0) 1 1 ∷ [];
    cancelled = [];
    pending = (1, item_of (float 90) (float 0) 1 1) ∷ (2, item_of (float 20) (float 1) 2 2) ∷ [];
    total_enqueued = 2;
    total_dequeued = 0;
    total_cancelled = 0;
    wait_times = [];
  };
  aging = Aging.linear_aging aging;
  aging_config = aging;
  fallback_to_fcfs = true;
  fcfs_fallback = some no_requests;
  aging_interval = float 5;
  max_retries = 3;
  timeout = float 60;
  pending = (1, 1) ∷ (2, 2) ∷ [];
  use_fallback = false;
  aging_task = false;
  dispatcher_ready = true;
}

abbrev guess : PredictionResult ℤ
guess = record {
  predicted_tokens = float 40;
  features = [];
  feature_latency_ms = float 1;
  predict_latency_ms = float 2;
}

abbrev works : String → Option (PredictionResult ℤ)
works prompt = some guess

abbrev raises : String → Option (PredictionResult ℤ)
raises prompt = none

busy-direct : active_fallback busy ≡ none
unfolding active_fallback
busy-direct = refl

busy-IsHeap : IsHeap item_lt busy.queue.heap
unfolding item_lt
busy-IsHeap = IsSorted-IsHeap item_lt busy.queue.heap (refl, (refl, tt))

busy-Distinct : Distinct busy.queue.heap
busy-Distinct k = ground arith

abbrev job2 : PrioritizedItem ℤ ℕ
job2 = item_of (float 20) (float 1) 2 2

busy-next : (next_item (float 4) busy.queue).0 ≡ some job2
unfolding next_item pop_live deliver sorted_heap sort insert item_lt Dict.contains
busy-next = refl

abbrev at_once : Round ℤ ℕ
at_once = record {
  popped_at = float 4;
  checked_at = float 4;
  remaining_at = float 4;
  others = [];
  expired = false;
}

acquire_shortest_example :
    ((acquire (float 4) none (at_once ∷ []) [] false busy).0 ≡ got 2)
    × NoneOf (λ y. item_lt y job2 && is_live busy.queue.cancelled y) busy.queue.heap
    × (Dict.contains busy.queue.cancelled 2 ≡ false)
acquire_shortest_example =
    acquire_shortest fixed-FloatOrder (float 4) none at_once [] [] false busy job2 busy-direct
      busy-IsHeap busy-Distinct busy-next

-- The calls after the failed prediction: two workers ask, and the aging loop runs.
abbrev later : List (Call ℤ)
later =
    acquires (float 5) none (at_once ∷ []) [] false
    ∷ ages (float 6)
    ∷ acquires (float 7) none (at_once ∷ []) [] false
    ∷ []

submit_strands_example :
    Stuck
      (submit raises (float 1) (float 2) (float 3) busy 3)
      (run raises (submit raises (float 1) (float 2) (float 3) busy 3) later)
    × (length busy.queue.heap
        ≤ length (run raises (submit raises (float 1) (float 2) (float 3) busy 3) later).queue.heap)
submit_strands_example =
    submit_strands raises (float 1) (float 2) (float 3) busy 3 later refl refl refl

aging_round_expires_example : Dict.has (aging_round (float 61) busy).pending 2 ≡ false
aging_round_expires_example = aging_round_expires (float 61) busy ((1, 1) ∷ []) [] 2 2 refl refl

-- Request 1 alone, whose priority loses a token with every second.
abbrev alone : SjfScheduler ℤ
alone = record busy {
  pending = (1, 1) ∷ [];
  aging = Aging.linear_aging (record aging { factor = float 1 });
}

first_lower : lowers (float 10) alone 1 (float 0) ≡ true
unfolding boost linear_boost
first_lower = refl

second_lower : lowers (float 20) alone 1 (aged (float 10) alone 1 (float 0)) ≡ true
unfolding boost linear_boost
second_lower = refl

-- After 10 and 20 seconds the request has lost 30 tokens, not 20.
aging_round-aging_round_example :
    ((aging_round (float 20) (aging_round (float 10) alone)).objects 1).priority
    ≡ boost alone.aging (float 20) (boost alone.aging (float 10) (float 0))
aging_round-aging_round_example =
    aging_round-aging_round (float 10) (float 20) alone 1 1 refl refl refl first_lower second_lower

abbrev exact : String → Option (PredictionResult ℤ)
exact prompt = some (record guess { predicted_tokens = float 512 })

abbrev oracle : OracleScheduler ℤ
oracle = record { base = no_requests.base; objects = request_at; queue = busy.queue }

submit-acquire_example :
    ((submit exact (float 1) (float 2) (float 3) busy 3).queue
      ≡ (Oracle.submit (float 3) oracle 3).queue)
    × (((submit exact (float 1) (float 2) (float 3) busy 3).objects 3).priority
        ≡ ((Oracle.submit (float 3) oracle 3).objects 3).priority)
    × ((acquire
          (float 4)
          none
          (at_once ∷ [])
          []
          false
          (submit exact (float 1) (float 2) (float 3) busy 3)).0
        ≡ (Oracle.acquire (float 4) none (at_once ∷ []) (Oracle.submit (float 3) oracle 3)).0)
submit-acquire_example =
    submit-acquire exact (float 1) (float 2) (float 3) (float 4) none (at_once ∷ []) busy oracle 3
      (record guess { predicted_tokens = float 512 }) refl refl refl refl refl busy-direct
