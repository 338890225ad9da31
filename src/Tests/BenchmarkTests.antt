-- ===== src/Tests/BenchmarkTests.antt =====
-- python/benchmark: three measured requests, and two simulated workers.
use ai_infrastructure_platfo.Prelude.{
  map, ◌==◌, if◌then◌else◌, none, false, refl, ◌*◌, ◌^◌, ℕ, ◌≡◌, ◌≤◌, true, false, List, [], ◌∷◌,
  arith,
}
use ai_infrastructure_platfo.Prelude.Int.{ℤ}
use ai_infrastructure_platfo.Floats.Laws.{Le}
use ai_infrastructure_platfo.Floats.Fixed.{fixed, fixed-FloatOrder, fixed-FloatArith, div_fixed-pos}
use ai_infrastructure_platfo.Benchmark.Metrics.{RequestMetric, BenchmarkResult, aggregate_metrics}
use ai_infrastructure_platfo.Benchmark.Metrics.Percentiles.{
  Reports, Rounding, aggregate_metrics-percentiles,
}
use ai_infrastructure_platfo.Benchmark.Simulation.{Event, begins, ends, init, run}
use ai_infrastructure_platfo.Benchmark.Simulation.Counts.{Balanced, run-init-Balanced}
use ai_infrastructure_platfo.Benchmark.Shared
use ai_infrastructure_platfo.Benchmark.Shared.Counted.{Counted, run-Counted}
use ai_infrastructure_platfo.Queue.Runs.{Round}
use ai_infrastructure_platfo.Scheduler.Base.{ScheduledRequest}
use ai_infrastructure_platfo.Scheduler.Oracle.{OracleScheduler}
use ai_infrastructure_platfo.Scheduler.Oracle
use ai_infrastructure_platfo.Scheduler.Oracle.Interface.{Scheduling, oracle_scheduling}
use ai_infrastructure_platfo.Tests.Setup.{float, test_heap}

fixed-trunc : (a b : ℤ) → fixed.lt b a ≡ false → fixed.trunc a ≤ fixed.trunc b
fixed-trunc a b h = grind arith

fixed-lit : (m n k : ℕ) → m ≤ n → fixed.lt (fixed.lit n k) (fixed.lit m k) ≡ false
fixed-lit m n k h = ground (arith, div_fixed-pos (10 ^ k) (m * 1000) (n * 1000))

fixed-Rounding : Rounding fixed
fixed-Rounding = record {
  trunc_mono = fixed-trunc;
  round_mono = λ a b k h. h;
  lit_mono = fixed-lit;
}

abbrev measured : ℕ → RequestMetric ℤ
measured n = record {
  success = true;
  e2e_ms = float n;
  queue_wait_ms = float n;
  feature_ms = float 0;
  predict_ms = float 0;
  schedule_ms = float 0;
  tokens = 7;
  concurrency = 2;
}

abbrev metrics : List (RequestMetric ℤ)
metrics = measured 30 ∷ measured 10 ∷ measured 20 ∷ []

abbrev result : BenchmarkResult ℤ
result = aggregate_metrics "fcfs" 2 metrics (float 3)

-- A percentile of the whole times, or of the queue waits, as it is reported.
abbrev Timed : ℤ → ℕ → Type 0
Timed reported percent =
    Reports reported (map (λ (m : RequestMetric ℤ). m.e2e_ms) metrics) (fixed.lit percent 2)

abbrev Waited : ℤ → ℕ → Type 0
Waited reported percent =
    Reports reported (map (λ (m : RequestMetric ℤ). m.queue_wait_ms) metrics) (fixed.lit percent 2)

aggregate_metrics-percentiles_example :
    (Timed result.e2e_p50_ms 50
      × Timed result.e2e_p95_ms 95
      × Timed result.e2e_p99_ms 99
      × Waited result.queue_wait_p50_ms 50
      × Waited result.queue_wait_p99_ms 99)
    × Le result.e2e_p50_ms result.e2e_p95_ms
    × Le result.e2e_p95_ms result.e2e_p99_ms
    × Le result.queue_wait_p50_ms result.queue_wait_p99_ms
    × (result.n_success ≤ result.n_requests)
aggregate_metrics-percentiles_example =
    aggregate_metrics-percentiles fixed-FloatOrder fixed-FloatArith fixed-Rounding "fcfs" 2 metrics
      (float 3)

abbrev events : List (Event ℤ)
events =
    begins 0 1 90 (float 0) (float 0) (float 1)
    ∷ begins 1 2 20 (float 0) (float 0) (float 1)
    ∷ ends 1 (float 40)
    ∷ begins 2 3 50 (float 2) (float 2) (float 3)
    ∷ []

run-init-Balanced_example : Balanced 2 (run 2 init events)
run-init-Balanced_example = run-init-Balanced 2 events

-- Two requests of 90 and 20 tokens at the oracle.
abbrev request_at : ℕ → ScheduledRequest ℤ
request_at ref = record {
  request_id = ref;
  prompt = "Write a haiku.";
  messages = [];
  max_tokens = if ref == 1 then 90 else 20;
  predicted_tokens = float 0;
  priority = float 0;
  enqueue_time = float 0;
  schedule_ms = none;
}

abbrev at_once : Round ℤ ℕ
at_once = record {
  popped_at = float 4;
  checked_at = float 4;
  remaining_at = float 4;
  others = [];
  expired = false;
}

abbrev oracle : Scheduling ℤ (OracleScheduler ℤ)
oracle = oracle_scheduling (float 4) (at_once ∷ [])

abbrev start : Shared.Start ℤ
start = record { t_enqueue = float 1; feature_ms = float 0; predict_ms = float 0 }

abbrev shared_events : List (Shared.Event ℤ)
shared_events =
    Shared.begins 1 start (float 2)
    ∷ Shared.begins 2 start (float 3)
    ∷ Shared.ends 0 (float 40)
    ∷ []

oracle-unused :
    ((oracle.base (Oracle.init request_at)).total_completed ≡ 0)
    × ((oracle.base (Oracle.init request_at)).total_scheduled ≡ 0)
unfolding oracle_scheduling Oracle.init
oracle-unused = (refl, refl)

run-Counted_example :
    Counted oracle
      (λ ref. ref)
      (λ ref. 20)
      2
      (Shared.run oracle
        (λ ref. ref)
        (λ ref. 20)
        2
        (Shared.init oracle (λ ref. ref) (λ ref. 20) 2 (Oracle.init request_at))
        shared_events)
run-Counted_example =
    run-Counted oracle (λ ref. ref) (λ ref. 20) 2 (Oracle.init request_at) shared_events
      oracle-unused.0 oracle-unused.1
