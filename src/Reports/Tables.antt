-- ===== src/Reports/Tables.antt =====
-- python/benchmark/compare.py and python/evaluation/generate_report.py: the cells of the tables, and
-- the page without a renderer.
use ai_infrastructure_platfo.Prelude.{
  ℕ, ◌+◌, ◌*◌, ◌≡◌, ◌<◌, ◌⊎◌, inl, inr, refl, Option, List, [], ◌∷◌, arith, length, map, length-map,
}
use ai_infrastructure_platfo.Prelude.Counts.{All, count_if-append}
use ai_infrastructure_platfo.Codes.{Name, codes, join}
use ai_infrastructure_platfo.Benchmark.Metrics.{BenchmarkResult}
use ai_infrastructure_platfo.Reports.Text.{times, times-join, Without, str-Without}
use ai_infrastructure_platfo.Reports.Comparison.{keys, values, csv_lines, table_row, run_comparison}

length-run_comparison :
    {F : Type 0} (fcfs oracle : ℕ → BenchmarkResult F) (sjf : ℕ → Option (BenchmarkResult F))
    (levels : List ℕ)
    → length (run_comparison fcfs oracle sjf levels) ≡ 3 * length levels
unfolding run_comparison
length-run_comparison fcfs oracle sjf [] = refl
length-run_comparison fcfs oracle sjf (c ∷ levels) =
    omega (arith, length-run_comparison fcfs oracle sjf levels)

module _ {F : Type 0} (show : F → Name) where
  -- Floats and scheduler names are written without a character.
  abbrev pub Named : ℕ → BenchmarkResult F → Type 0
  Named c r = Without c (codes r.scheduler)

  shown-All :
      (c : ℕ) → ((a : F) → Without c (show a)) → (xs : List F) → All (Without c) (map show xs)
  shown-All c shown [] = tt
  shown-All c shown (x ∷ xs) = (shown x, shown-All c shown xs)

  values-Without :
      (c : ℕ)
      → (c < b'0') ⊎ (b'9' < c)
      → ((a : F) → Without c (show a))
      → (r : BenchmarkResult F) → Named c r
      → All (Without c) (values show r)
  unfolding values
  values-Without c apart shown r named = (
    named,
    (
      str-Without c r.concurrency apart,
      (
        str-Without c r.n_requests apart,
        (
          str-Without c r.n_success apart,
          shown-All c shown (
              r.throughput_rps ∷ r.tokens_per_sec ∷ r.e2e_p50_ms ∷ r.e2e_p95_ms ∷ r.e2e_p99_ms
              ∷ r.queue_wait_p50_ms ∷ r.queue_wait_p99_ms ∷ r.feature_p50_ms ∷ r.predict_p50_ms
              ∷ r.schedule_p50_ms ∷ r.error_rate ∷ r.elapsed_sec ∷ r.gpu_utilization
              ∷ r.cpu_utilization ∷ []),
        ),
      ),
    ),
  )

  csv_row-commas :
      ((a : F) → Without b',' (show a))
      → (r : BenchmarkResult F) → Named b',' r
      → times b',' (join (codes ",") (values show r)) ≡ 17
  unfolding values
  csv_row-commas shown r named =
      times-join b',' _ _ (values-Without b',' (inl (omega arith)) shown r named)

  table_row-pipes :
      ((a : F) → Without b'|' (show a))
      → (r : BenchmarkResult F) → Named b'|' r
      → times b'|' (table_row show r) ≡ 7
  unfolding table_row
  table_row-pipes shown r named =
      simp
        (
          count_if-append,
          shown r.e2e_p50_ms,
          shown r.e2e_p99_ms,
          shown r.throughput_rps,
          shown r.tokens_per_sec,
          named,
          str-Without b'|' r.concurrency (inr (omega arith)),
        )
        refl

  -- Where floats and scheduler names are written without commas, the CSV file of some results has a
  -- line for the keys and one for each result, all with the same number of fields; and where they are
  -- written without vertical bars, every line of the table has as many cells as the table's header.
  pub csv_lines-table_row :
      (r : BenchmarkResult F) (results : List (BenchmarkResult F))
      → ((a : F) → Without b',' (show a) × Without b'|' (show a))
      → All (λ r. Named b',' r × Named b'|' r) (r ∷ results)
      → (length (csv_lines show (r ∷ results)) ≡ length (r ∷ results) + 1)
        × All (λ line. times b',' line ≡ 17) (csv_lines show (r ∷ results))
        × All
            (λ row.
              times b'|' row
              ≡ times b'|'
                  (codes "| Scheduler | Concurrency | p50 (ms) | p99 (ms) | RPS | Tok/s |"))
            (map (table_row show) (r ∷ results))
  unfolding csv_lines
  csv_lines-table_row r results shown named = (
    omega (arith, length-map results (λ r. join (codes ",") (values show r))),
    (header, rows (r ∷ results) named),
    bars (r ∷ results) named,
  )
    where
      header : times b',' (join (codes ",") keys) ≡ 17
      header = refl

      rows :
          (rs : List (BenchmarkResult F))
          → All (λ r. Named b',' r × Named b'|' r) rs
          → All (λ line. times b',' line ≡ 17) (map (λ r. join (codes ",") (values show r)) rs)
      rows [] n = tt
      rows (r ∷ rs) n = (csv_row-commas (λ a. (shown a).0) r n.0.0, rows rs n.1)

      bars :
          (rs : List (BenchmarkResult F))
          → All (λ r. Named b',' r × Named b'|' r) rs
          → All (λ row. times b'|' row ≡ 7) (map (table_row show) rs)
      bars [] n = tt
      bars (r ∷ rs) n = (table_row-pipes (λ a. (shown a).1) r n.0.1, bars rs n.1)
