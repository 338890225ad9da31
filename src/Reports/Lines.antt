-- ===== src/Reports/Lines.antt =====
-- python/evaluation/generate_report.py: when the report is made, and the page without a renderer.
use ai_infrastructure_platfo.Prelude.{
  ◌≡◌, refl, ◌∙◌, Bool, true, false, ◌||◌, Option, none, some, List, [], ◌∷◌, arith, ◌==◌,
  string_eq, Bool-cases, inl, inr,
}
use ai_infrastructure_platfo.Prelude.Counts.{count_if-append}
use ai_infrastructure_platfo.Dict
use ai_infrastructure_platfo.Codes.{Name, codes, replace, replace_from, starts_with}
use ai_infrastructure_platfo.Vllm.Shapes.{◌>>=◌}
use ai_infrastructure_platfo.Reports.Text.{times}
use ai_infrastructure_platfo.Reports.Evaluation.{
  Json, bench_row, bench_rows, bench_lines, build_markdown, html_body,
}

escaped : (md : Name) → times b'<' (replace_from 0 (codes "<") (codes "&lt;") md) ≡ 0
unfolding replace_from starts_with
escaped [] = refl
escaped (c ∷ cs) = elim (Bool-cases (c == b'<')) [
  | inl e ↦ rw (e, replace_from, starts_with) (omega (arith, escaped cs))
  | inr e ↦ rw (e, replace_from, starts_with) (rw e (omega (arith, escaped cs)))
]

-- Without a renderer the page has the text between two tags and no other "<": nothing of the text
-- can open a tag.
pub times-html_body : (md : Name) → times b'<' (html_body none md) ≡ 2
unfolding html_body replace
times-html_body md = simp (count_if-append, escaped md) refl

abbrev pub raises : {A : Type 0} → Option A → Bool
raises none = true
raises (some a) = false

raises-mapped :
    {A B : Type 0} (m : Option A) (f : A → B) → raises (m >>= λ a. some (f a)) ≡ raises m
raises-mapped none f = refl
raises-mapped (some a) f = refl

-- A benchmark without one of the five keys that are read by index.
abbrev pub lacks : Json → Bool
lacks r =
    raises (Dict.get r "scheduler")
    || raises (Dict.get r "concurrency")
    || raises (Dict.get r "e2e_p50_ms")
    || raises (Dict.get r "e2e_p99_ms")
    || raises (Dict.get r "throughput_rps")

abbrev pub any : (Json → Bool) → List Json → Bool
any p [] = false
any p (r ∷ bench) = p r || any p bench

bench_row-raises : (r : Json) → raises (bench_row r) ≡ lacks r
unfolding bench_row
bench_row-raises r = ground arith

bench_rows-raises : (bench : List Json) → raises (bench_rows bench) ≡ any lacks bench
unfolding bench_rows
bench_rows-raises [] = refl
bench_rows-raises (r ∷ bench) = ground (arith, bench_row-raises r, bench_rows-raises bench)

-- The report is not made, for a `KeyError`, exactly if some benchmark of the file lacks one of the
-- five keys; what is missing in the other two files never stops it.
pub build_markdown-raises :
    (ts : Name) (bench : List Json) (eval_data meta : Json)
    → raises (build_markdown ts bench eval_data meta) ≡ any lacks bench
unfolding build_markdown bench_lines
build_markdown-raises ts [] eval_data meta = refl
build_markdown-raises ts (r ∷ bench) eval_data meta =
    raises-mapped (bench_lines (r ∷ bench)) _
    ∙ raises-mapped (bench_rows (r ∷ bench)) _
    ∙ bench_rows-raises (r ∷ bench)
