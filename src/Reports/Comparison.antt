-- ===== src/Reports/Comparison.antt =====
-- python/benchmark/compare.py: the rows of the comparison of the three schedulers, and the CSV file
-- and the table that are written of them. How a float is written is an argument.
use ai_infrastructure_platfo.Prelude.{ℕ, Option, none, some, List, [], ◌∷◌, ◌++◌, map}
use ai_infrastructure_platfo.Codes.{Name, codes, str, join}
use ai_infrastructure_platfo.Benchmark.Metrics.{BenchmarkResult}

module _ {F : Type 0} where
  -- `except`: the result of FCFS under another name.
  unfoldable pub sjf_row : BenchmarkResult F → Option (BenchmarkResult F) → BenchmarkResult F
  sjf_row fcfs (some sjf) = sjf
  sjf_row fcfs none = record fcfs { scheduler = "sjf" }

  -- With what the three benchmarks give at a concurrency, where that of SJF may raise.
  unfoldable pub run_comparison :
      (ℕ → BenchmarkResult F)
      → (ℕ → BenchmarkResult F)
      → (ℕ → Option (BenchmarkResult F))
      → List ℕ
      → List (BenchmarkResult F)
  unfolding sjf_row
  run_comparison fcfs oracle sjf [] = []
  run_comparison fcfs oracle sjf (c ∷ concurrency_levels) =
      fcfs c
      ∷ oracle c
      ∷ sjf_row (fcfs c) (sjf c)
      ∷ run_comparison fcfs oracle sjf concurrency_levels

-- The keys of a result, in the order of its fields.
abbrev pub keys : List Name
keys =
    codes "scheduler"
    ∷ codes "concurrency"
    ∷ codes "n_requests"
    ∷ codes "n_success"
    ∷ codes "throughput_rps"
    ∷ codes "tokens_per_sec"
    ∷ codes "e2e_p50_ms"
    ∷ codes "e2e_p95_ms"
    ∷ codes "e2e_p99_ms"
    ∷ codes "queue_wait_p50_ms"
    ∷ codes "queue_wait_p99_ms"
    ∷ codes "feature_p50_ms"
    ∷ codes "predict_p50_ms"
    ∷ codes "schedule_p50_ms"
    ∷ codes "error_rate"
    ∷ codes "elapsed_sec"
    ∷ codes "gpu_utilization"
    ∷ codes "cpu_utilization"
    ∷ []

module _ {F : Type 0} (show : F → Name) where
  -- `str(r[k]) for k in keys`
  unfoldable pub values : BenchmarkResult F → List Name
  values r =
      codes r.scheduler
      ∷ str r.concurrency
      ∷ str r.n_requests
      ∷ str r.n_success
      ∷ show r.throughput_rps
      ∷ show r.tokens_per_sec
      ∷ show r.e2e_p50_ms
      ∷ show r.e2e_p95_ms
      ∷ show r.e2e_p99_ms
      ∷ show r.queue_wait_p50_ms
      ∷ show r.queue_wait_p99_ms
      ∷ show r.feature_p50_ms
      ∷ show r.predict_p50_ms
      ∷ show r.schedule_p50_ms
      ∷ show r.error_rate
      ∷ show r.elapsed_sec
      ∷ show r.gpu_utilization
      ∷ show r.cpu_utilization
      ∷ []

  -- The lines of the CSV file; there is none without results.
  unfoldable pub csv_lines : List (BenchmarkResult F) → List Name
  unfolding join values
  csv_lines [] = []
  csv_lines (r ∷ results) =
      join (codes ",") keys ∷ map (λ r. join (codes ",") (values r)) (r ∷ results)

  -- A line of the table.
  unfoldable pub table_row : BenchmarkResult F → Name
  table_row r =
      codes "| "
      ++ codes r.scheduler
      ++ codes " | "
      ++ str r.concurrency
      ++ codes " | "
      ++ show r.e2e_p50_ms
      ++ codes " | "
      ++ show r.e2e_p99_ms
      ++ codes " | "
      ++ show r.throughput_rps
      ++ codes " | "
      ++ show r.tokens_per_sec
      ++ codes " |"

  -- The lines of the Markdown file, with the text of the time; the file has them joined by newlines.
  unfoldable pub report_lines : Name → List (BenchmarkResult F) → List Name
  unfolding table_row
  report_lines generated results =
      codes "# Scheduler Comparison Benchmark"
      ∷ (codes "\n**Generated:** " ++ generated ++ codes "\n")
      ∷ codes "| Scheduler | Concurrency | p50 (ms) | p99 (ms) | RPS | Tok/s |"
      ∷ codes "|-----------|-------------|----------|----------|-----|-------|"
      ∷ map table_row results

  unfoldable pub report : Name → List (BenchmarkResult F) → Name
  unfolding report_lines join
  report generated results = join (codes "\n") (report_lines generated results)
