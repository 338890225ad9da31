-- ===== src/Reports/Evaluation.antt =====
-- python/evaluation/generate_report.py: the evaluation report in Markdown and in HTML. The JSON
-- files are dictionaries of the texts of their values, and `none` is the `KeyError`.
use ai_infrastructure_platfo.Prelude.{String, Option, none, some, List, [], ◌∷◌, ◌++◌, string_eq}
use ai_infrastructure_platfo.Dict
use ai_infrastructure_platfo.Codes.{Name, codes, replace, join}
use ai_infrastructure_platfo.Vllm.Shapes.{◌>>=◌}

abbrev pub Json : Type 0
Json = List (String × Name)

-- `d.get(key, default)`
unfoldable pub get_or : Json → String → Name → Name
get_or d key default = elim (Dict.get d key) [ some text ↦ text | none ↦ default ]

abbrev shown : String → Json → String → Name
shown title d key = codes title ++ get_or d key (codes "N/A")

-- The lines on the model, where the two files have anything.
unfoldable metric_lines : Json → List Name
unfolding get_or
metric_lines [] = []
metric_lines (entry ∷ eval_data) =
    let d = entry ∷ eval_data in
    shown "- MAE: " d "mae"
    ∷ shown "- RMSE: " d "rmse"
    ∷ shown "- R²: " d "r2"
    ∷ shown "- Pearson: " d "pearson"
    ∷ shown "- Spearman: " d "spearman"
    ∷ []

unfoldable meta_lines : Json → List Name
unfolding get_or
meta_lines [] = []
meta_lines (entry ∷ meta) =
    let d = entry ∷ meta in
    shown "\n**Model version:** " d "model_version"
    ∷ shown "**Training date:** " d "training_date"
    ∷ shown "**Git SHA:** " d "git_sha"
    ∷ []

-- A line of the table of benchmarks.
unfoldable pub bench_row : Json → Option Name
unfolding get_or
bench_row r = do
  scheduler ← Dict.get r "scheduler"
  concurrency ← Dict.get r "concurrency"
  e2e_p50_ms ← Dict.get r "e2e_p50_ms"
  e2e_p99_ms ← Dict.get r "e2e_p99_ms"
  throughput_rps ← Dict.get r "throughput_rps"
  some (
      codes "| "
      ++ scheduler
      ++ codes " | "
      ++ concurrency
      ++ codes " | "
      ++ e2e_p50_ms
      ++ codes " | "
      ++ e2e_p99_ms
      ++ codes " | "
      ++ throughput_rps
      ++ codes " | "
      ++ get_or r "queue_wait_p99_ms" (codes "0")
      ++ codes " |")

unfoldable pub bench_rows : List Json → Option (List Name)
unfolding bench_row
bench_rows [] = some []
bench_rows (r ∷ bench) = bench_row r >>= λ row. bench_rows bench >>= λ rows. some (row ∷ rows)

-- The section on the benchmarks.
unfoldable pub bench_lines : List Json → Option (List Name)
unfolding bench_rows
bench_lines [] = some (codes "*No benchmark data available.*" ∷ [])
bench_lines (r ∷ bench) = bench_rows (r ∷ bench) >>= λ rows. some (
    codes "| Scheduler | Concurrency | p50 (ms) | p99 (ms) | RPS | Queue p99 |"
    ∷ codes "|-----------|-------------|----------|----------|-----|-----------|"
    ∷ rows)

abbrev opening : Name → List Name
opening ts =
    codes "# vLLM Intelligent SJF Scheduler — Evaluation Report"
    ∷ (codes "\n**Generated:** " ++ ts ++ codes "\n")
    ∷ codes "## 1. Architecture"
    ∷ codes
        "The system implements ML-based Shortest-Job-First scheduling via a gateway proxy that predicts output token length, prioritizes requests in a priority queue, and forwards to vLLM with aging to prevent starvation.\n"
    ∷ codes "## 2. Methodology"
    ∷ codes "- Feature extraction: 40 numerical prompt features"
    ∷ codes "- Model: 2-layer MLP with Huber loss"
    ∷ codes "- Schedulers compared: FCFS, Oracle SJF, Predicted SJF"
    ∷ codes "- Simulation-based benchmark with configurable concurrency\n"
    ∷ codes "## 3. Model Metrics"
    ∷ []

abbrev closing : List Name
closing =
    codes "\n## 5. Discussion"
    ∷ codes
        "Predicted SJF reduces tail latency compared to FCFS by prioritizing short-output requests. Oracle SJF represents the theoretical upper bound."
    ∷ codes "\n## 6. Limitations"
    ∷ codes "- Prediction accuracy depends on training data distribution"
    ∷ codes "- Gateway adds minimal scheduling overhead"
    ∷ codes "- Live vLLM continuous batching interacts with SJF ordering"
    ∷ codes "\n## 7. Future Work"
    ∷ codes "- Online learning from observed output lengths"
    ∷ codes "- Integration with vLLM internal scheduler"
    ∷ codes "- Multi-GPU aware scheduling"
    ∷ []

-- `_build_markdown`, with the text of the time
unfoldable pub build_markdown : Name → List Json → Json → Json → Option Name
unfolding bench_lines metric_lines meta_lines join
build_markdown ts bench eval_data meta = bench_lines bench >>= λ table. some (
    join (codes "\n") (
      opening ts
      ++ (metric_lines eval_data
          ++ (meta_lines meta ++ (codes "\n## 4. Benchmark Results" ∷ [] ∷ (table ++ closing))))))

-- `_markdown_to_html`; `markdown` is the renderer, if it is installed.
unfoldable pub html_body : Option (Name → Name) → Name → Name
unfolding replace
html_body (some markdown) md = markdown md
html_body none md = codes "<pre>" ++ replace md (codes "<") (codes "&lt;") ++ codes "</pre>"

unfoldable pub markdown_to_html : Option (Name → Name) → Name → Name
unfolding html_body
markdown_to_html markdown md =
    codes
      "<!DOCTYPE html>\n<html><head><meta charset=\"utf-8\"><title>Evaluation Report</title>\n<style>body{font-family:sans-serif;max-width:900px;margin:2em auto;padding:0 1em}\ntable{border-collapse:collapse;width:100%}th,td{border:1px solid #ddd;padding:8px}</style>\n</head><body>"
    ++ html_body markdown md
    ++ codes "</body></html>"

-- What the program keeps: the last benchmark file in the order of names, if there is one, and the
-- other two if they exist, else nothing of them; the files that it writes.
unfoldable pub last_of : {A : Type 0} → List A → A → A
last_of [] empty = empty
last_of (a ∷ as') empty = last_of as' a

unfoldable pub generate_reports :
    Name
    → List (List Json)
    → Option Json
    → Option Json
    → Option (Name → Name)
    → Option (Name × Name)
unfolding build_markdown markdown_to_html last_of
generate_reports ts bench_files eval_file meta_file markdown =
    build_markdown ts (last_of bench_files []) (elim eval_file [ some d ↦ d | none ↦ [] ])
      (elim meta_file [ some d ↦ d | none ↦ [] ])
    >>= λ md. some (md, markdown_to_html markdown md)
