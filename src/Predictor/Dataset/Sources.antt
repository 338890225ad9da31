-- ===== src/Predictor/Dataset/Sources.antt =====
-- python/predictor/dataset.py: samples from files, from Hugging Face with its cache, and by preset.
-- The parsed lines and rows are arguments; the cache is the table of the files of `cache_dir`.
use ai_infrastructure_platfo.Prelude.{
  ℕ, ◌≡◌, refl, String, Option, none, some, List, [], ◌∷◌, ◌++◌, take, nat_eq, string_eq, arith,
  if◌then◌else◌, Option-cases, inl, inr,
}
use ai_infrastructure_platfo.Codes.{Name, codes, replace, name_eq}
use ai_infrastructure_platfo.Dict
use ai_infrastructure_platfo.Dict.{get-put}
use ai_infrastructure_platfo.Floats.{Floats}
use ai_infrastructure_platfo.Predictor.Dataset.{
  Sample, Row, Candidate, get_or, is_empty, from_records, synthesize,
}

-- `{"prompt": prompt, "output": output}`
abbrev record_of : String → String → Row
record_of prompt output = ("prompt", prompt) ∷ ("output", output) ∷ []

-- The loop of `from_csv`: `none` is the `KeyError` of a row without the prompt's column.
unfoldable csv_records : String → String → List Row → Option (List Row)
unfolding Dict.get
csv_records prompt_col output_col [] = some []
csv_records prompt_col output_col (row ∷ rows) = elim (Dict.get row prompt_col) [
  | none ↦ none
  | some prompt ↦ elim (csv_records prompt_col output_col rows) [
    | none ↦ none
    | some records ↦ some (record_of prompt (get_or row output_col "") ∷ records)
  ]
]

-- The loop of `from_huggingface` over the rows that it reads.
unfoldable hub_records : String → String → List Row → List Row
unfolding Dict.get
hub_records prompt_key output_key [] = []
hub_records prompt_key output_key (row ∷ rows) =
    let records = hub_records prompt_key output_key rows in
    let prompt = get_or row prompt_key (get_or row "text" "") in
    let output = get_or row output_key (get_or row "response" "") in
    if is_empty prompt then records else record_of prompt output ∷ records

-- The arguments of `from_huggingface`.
pub record Source : Type 0 where
  pub name : String
  pub split : String
  pub max_samples : ℕ
  pub prompt_key : String
  pub output_key : String

-- The argument that `load_preset` gives.
unfoldable pub preset_source : String → ℕ → Option Source
preset_source name max_samples =
    if string_eq.beq name "alpaca"
    then some (record {
      name = "yahma/alpaca-cleaned";
      split = "train";
      max_samples = max_samples;
      prompt_key = "instruction";
      output_key = "output";
    })
    else if string_eq.beq name "dolly"
    then some (record {
      name = "databricks/databricks-dolly-15k";
      split = "train";
      max_samples = max_samples;
      prompt_key = "instruction";
      output_key = "response";
    })
    else none

-- `f"{name}_{split}_{max_samples}".replace("/", "_")`, where `str_of` writes a number.
unfoldable pub cache_key : (ℕ → Name) → Source → Name
unfolding replace
cache_key str_of s =
    replace (codes s.name ++ (codes "_" ++ (codes s.split ++ (codes "_" ++ str_of s.max_samples))))
      (codes "/") (codes "_")

module _ {F : Type 0} ⦃fl : Floats F⦄ (split_words : String → List String)
    (extract : String → List F) where
  unfoldable from_csv : String → String → List Row → Option (List (Sample F))
  unfolding csv_records from_records
  from_csv prompt_col output_col rows = elim (csv_records prompt_col output_col rows) [
    | none ↦ none
    | some records ↦ some (from_records split_words extract records)
  ]

  module _ (str_of : ℕ → Name) where
    -- `from_huggingface` with the rows of the data set `ds`: the samples, and the cache after it.
    unfoldable pub from_huggingface :
        List (Name × List Row) → Source → List Row → List (Sample F) × List (Name × List Row)
    unfolding cache_key hub_records from_records Dict.put Dict.get
    from_huggingface cache s ds = elim (Dict.get cache (cache_key str_of s)) [
      | some records ↦ (from_records split_words extract records, cache)
      | none ↦
          let records = hub_records s.prompt_key s.output_key (take s.max_samples ds) in
          (from_records split_words extract records, Dict.put cache (cache_key str_of s) records)
    ]

    -- `load_preset`: `none` is the `ValueError` of an unknown name.
    unfoldable pub load_preset :
        (String → String)
        → List (Name × List Row)
        → String
        → ℕ
        → List Row
        → List (Candidate F)
        → Option (List (Sample F) × List (Name × List Row))
    unfolding preset_source from_huggingface synthesize
    load_preset hash_prompt cache name max_samples ds candidates =
        elim (preset_source name max_samples) [
          | some s ↦ some (from_huggingface cache s ds)
          | none ↦
              if string_eq.beq name "synthetic"
              then some (synthesize hash_prompt extract max_samples [] candidates, cache)
              else none
        ]

    -- After a call, a call for the same name, split and number of samples gives the same samples,
    -- whatever the data set has become and, since the cache's key leaves them out, whatever columns
    -- are asked for.
    pub from_huggingface-cached :
        (cache : List (Name × List Row)) (s t : Source) (ds ds' : List Row)
        → cache_key str_of t ≡ cache_key str_of s
        → (from_huggingface (from_huggingface cache s ds).1 t ds').0
          ≡ (from_huggingface cache s ds).0
    unfolding from_huggingface
    from_huggingface-cached cache s t ds ds' e =
        elim (Option-cases (Dict.get cache (cache_key str_of s))) [
          | inl absent ↦
              let records = hub_records s.prompt_key s.output_key (take s.max_samples ds) in
              let found : Dict.get (Dict.put cache (cache_key str_of s) records)
                    (cache_key str_of s)
                  ≡ some records =
                ground (
                  arith,
                  get-put cache (cache_key str_of s) (cache_key str_of s) records,
                  name_eq.beq_iff (cache_key str_of s) (cache_key str_of s),
                ) in
              rw (absent, e, found, from_huggingface) refl
          | inr (records, present) ↦ rw (present, e, present, from_huggingface) refl
        ]
