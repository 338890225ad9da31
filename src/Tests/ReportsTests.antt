-- ===== src/Tests/ReportsTests.antt =====
-- python/benchmark/compare.py: the tables of two results, with times in whole milliseconds.
use ai_infrastructure_platfo.Prelude.{
  ℕ, ◌+◌, ◌≡◌, refl, String, [], ◌∷◌, length, map, inl, inr, arith,
}
use ai_infrastructure_platfo.Prelude.Counts.{All}
use ai_infrastructure_platfo.Codes.{codes, str}
use ai_infrastructure_platfo.Benchmark.Metrics.{BenchmarkResult}
use ai_infrastructure_platfo.Reports.Text.{times, str-Without}
use ai_infrastructure_platfo.Reports.Comparison.{csv_lines, table_row}
use ai_infrastructure_platfo.Reports.Tables.{csv_lines-table_row}

abbrev result : String → ℕ → BenchmarkResult ℕ
result name p50 = record {
  scheduler = name;
  concurrency = 8;
  n_requests = 200;
  n_success = 198;
  throughput_rps = 31;
  tokens_per_sec = 3410;
  e2e_p50_ms = p50;
  e2e_p95_ms = p50 + 90;
  e2e_p99_ms = p50 + 120;
  queue_wait_p50_ms = 4;
  queue_wait_p99_ms = 70;
  feature_p50_ms = 1;
  predict_p50_ms = 2;
  schedule_p50_ms = 0;
  error_rate = 1;
  elapsed_sec = 6;
  gpu_utilization = 0;
  cpu_utilization = 0;
}

csv_lines-table_row_example :
    (length (csv_lines str (result "fcfs" 250 ∷ result "sjf" 210 ∷ [])) ≡ 3)
    × All (λ line. times b',' line ≡ 17) (csv_lines str (result "fcfs" 250 ∷ result "sjf" 210 ∷ []))
    × All
        (λ row.
          times b'|' row
          ≡ times b'|' (codes "| Scheduler | Concurrency | p50 (ms) | p99 (ms) | RPS | Tok/s |"))
        (map (table_row str) (result "fcfs" 250 ∷ result "sjf" 210 ∷ []))
csv_lines-table_row_example =
    csv_lines-table_row str (result "fcfs" 250) (result "sjf" 210 ∷ [])
      (λ n. (str-Without b',' n (inl (omega arith)), str-Without b'|' n (inr (omega arith))))
      ((refl, refl), ((refl, refl), tt))
