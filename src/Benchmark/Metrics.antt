-- ===== src/Benchmark/Metrics.antt =====
-- python/benchmark/metrics.py: percentiles and the aggregation of request metrics.
pub mod Percentiles
use ai_infrastructure_platfo.Prelude.{
  ℕ, ◌+◌, ◌-◌, String, Bool, List, [], ◌∷◌, length, map, min, max, get_or, if◌then◌else◌,
}
use ai_infrastructure_platfo.Prelude.Counts.{count_if}
use ai_infrastructure_platfo.Floats.{Floats, fmax}
use ai_infrastructure_platfo.Heapq.Sorted.{sort}

pub record RequestMetric (F : Type 0) : Type 0 where
  pub success : Bool
  pub e2e_ms : F
  pub queue_wait_ms : F
  pub feature_ms : F
  pub predict_ms : F
  pub schedule_ms : F
  pub tokens : ℕ
  pub concurrency : ℕ

pub record BenchmarkResult (F : Type 0) : Type 0 where
  pub scheduler : String
  pub concurrency : ℕ
  pub n_requests : ℕ
  pub n_success : ℕ
  pub throughput_rps : F
  pub tokens_per_sec : F
  pub e2e_p50_ms : F
  pub e2e_p95_ms : F
  pub e2e_p99_ms : F
  pub queue_wait_p50_ms : F
  pub queue_wait_p99_ms : F
  pub feature_p50_ms : F
  pub predict_p50_ms : F
  pub schedule_p50_ms : F
  pub error_rate : F
  pub elapsed_sec : F
  pub gpu_utilization : F
  pub cpu_utilization : F

-- `sum(m.tokens for m in successes)`
unfoldable total_tokens : {F : Type 0} → List (RequestMetric F) → ℕ
total_tokens [] = 0
total_tokens (m ∷ metrics) = (if m.success then m.tokens else 0) + total_tokens metrics

abbrev pub succeeded : {F : Type 0} → RequestMetric F → Bool
succeeded m = m.success

module _ {F : Type 0} ⦃fl : Floats F⦄ where
  -- `max(0, int(len(sorted_data) * p) - 1)`; the subtraction on ℕ stops at 0 by itself.
  unfoldable pub rank : ℕ → F → ℕ
  rank n p = fl.trunc (fl.mul (fl.lit n 0) p) - 1

  unfoldable pub percentile : List F → F → F
  unfolding rank
  percentile [] p = fl.lit 0 0
  percentile (x ∷ xs) p =
      let sorted_data = sort fl.lt (x ∷ xs) in
      get_or sorted_data (min (rank (length sorted_data) p) (length sorted_data - 1)) (fl.lit 0 0)

  unfoldable pub aggregate_metrics : String → ℕ → List (RequestMetric F) → F → BenchmarkResult F
  unfolding percentile total_tokens
  aggregate_metrics scheduler concurrency metrics elapsed_sec =
      let n_success = count_if succeeded metrics in
      let seconds = fmax elapsed_sec (fl.lit 1 6) in
      let e2es = map (λ m. m.e2e_ms) metrics in
      let waits = map (λ m. m.queue_wait_ms) metrics in
      record {
        scheduler = scheduler;
        concurrency = concurrency;
        n_requests = length metrics;
        n_success = n_success;
        throughput_rps = fl.round (fl.div (fl.lit n_success 0) seconds) 3;
        tokens_per_sec = fl.round (fl.div (fl.lit (total_tokens metrics) 0) seconds) 1;
        e2e_p50_ms = fl.round (percentile e2es (fl.lit 50 2)) 2;
        e2e_p95_ms = fl.round (percentile e2es (fl.lit 95 2)) 2;
        e2e_p99_ms = fl.round (percentile e2es (fl.lit 99 2)) 2;
        queue_wait_p50_ms = fl.round (percentile waits (fl.lit 50 2)) 2;
        queue_wait_p99_ms = fl.round (percentile waits (fl.lit 99 2)) 2;
        feature_p50_ms = fl.round (percentile (map (λ m. m.feature_ms) metrics) (fl.lit 50 2)) 3;
        predict_p50_ms = fl.round (percentile (map (λ m. m.predict_ms) metrics) (fl.lit 50 2)) 3;
        schedule_p50_ms = fl.round (percentile (map (λ m. m.schedule_ms) metrics) (fl.lit 50 2)) 3;
        error_rate =
            fl.round
              (fl.mul
                (fl.div (fl.lit (length metrics - n_success) 0) (fl.lit (max (length metrics) 1) 0))
                (fl.lit 100 0))
              2;
        elapsed_sec = fl.round elapsed_sec 2;
        gpu_utilization = fl.lit 0 0;
        cpu_utilization = fl.lit 0 0;
      }
