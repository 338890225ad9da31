-- ===== src/Predictor/Extractor/Values.antt =====
-- python/predictor/feature_extractor.py: the features of a prompt. spaCy and the sentence embedder
-- are parameters.
use ai_infrastructure_platfo.Prelude.{
  ℕ, String, Bool, Option, none, some, List, [], ◌∷◌, length, take, ltb, max, ◌==◌, nat_eq,
  string_eq, if◌then◌else◌,
}
use ai_infrastructure_platfo.Prelude.Counts.{count_if}
use ai_infrastructure_platfo.Floats.{Floats, fmin, sum_from}
use ai_infrastructure_platfo.Codes.{Name, name_eq, count, contains}
use ai_infrastructure_platfo.Dict
use ai_infrastructure_platfo.Predictor.Extractor.Counting.{
  Unicode, Patterns, stopwords, reasoning_kw, is_punctuation, vocabulary, counter_from,
  detect_language, turns_of, token_count_of, sentence_count_of,
}
use ai_infrastructure_platfo.Predictor.Features.{feature_vector}

-- `FeatureExtractor`: what is enabled, and the loaded models, `none` where they cannot be loaded.
pub record FeatureExtractor (F : Type 0) : Type 0 where
  pub enable_ner : Bool
  pub enable_embedding : Bool
  pub ner : Option (Name → ℕ)
  pub embedder : Option (Name → F)

pub record ExtractionResult (F : Type 0) : Type 0 where
  pub features : List F
  pub latency_ms : F
  pub prompt : Name

module _ {F : Type 0} ⦃fl : Floats F⦄ where
  abbrev pub float : ℕ → F
  float n = fl.lit n 0

  -- `1.0 if b else 0.0`
  abbrev flag : Bool → F
  flag b = if b then fl.lit 1 0 else fl.lit 0 0

  -- `a / b if b else 0.0`
  abbrev ratio : ℕ → ℕ → F
  ratio a b = if b == 0 then fl.lit 0 0 else fl.div (float a) (float b)

  -- `_shannon_entropy`: the terms of its sum, and the sum.
  unfoldable entropy_terms : ℕ → List (ℕ × ℕ) → List F
  entropy_terms length [] = []
  entropy_terms length ((c, n) ∷ counts) =
      let share : F = fl.div (float n) (float length) in
      fl.mul share (fl.log2 share) ∷ entropy_terms length counts

  unfoldable shannon_entropy : Name → F
  unfolding entropy_terms counter_from sum_from
  shannon_entropy [] = fl.lit 0 0
  shannon_entropy (c ∷ cs) =
      fl.sub (fl.lit 0 0)
        (sum_from (fl.lit 0 0) (entropy_terms (length (c ∷ cs)) (counter_from [] (c ∷ cs))))

  -- `_lang_to_float`
  unfoldable lang_to_float : String → F
  unfolding Dict.get
  lang_to_float code =
      let mapping : List (String × F) =
        ("en", fl.lit 0 0) ∷ ("es", fl.lit 25 2) ∷ ("fr", fl.lit 5 1) ∷ ("de", fl.lit 75 2) ∷ [] in
      elim (Dict.get mapping code) [ some v ↦ v | none ↦ fl.lit 1 0 ]

  -- `_reasoning_score`
  unfoldable pub reasoning_score : Unicode → Patterns → Name → ℕ → ℕ → F
  unfolding Dict.contains
  reasoning_score u p text q_marks word_count =
      let hits = count_if (λ w. Dict.contains reasoning_kw w) (p.words (u.lower text)) in
      let base = fl.mul (fl.div (float hits) (float (max word_count 1))) (fl.lit 10 0) in
      fmin (fl.lit 1 0) (fl.add base (fl.mul (float q_marks) (fl.lit 1 1)))

  -- `_coding_probability`
  unfoldable pub coding_probability : Unicode → Patterns → Name → F
  unfolding contains
  coding_probability u p text =
      let low = u.lower text in
      let signals =
        count_if (λ b. b)
          (p.code_fence text
            ∷ p.python text
            ∷ p.sql text
            ∷ contains low "function"
            ∷ contains low "class "
            ∷ contains low "import "
            ∷ []) in
      fmin (fl.lit 1 0) (fl.div (float signals) (fl.lit 3 0))

  -- `_named_entity_count` and `_embedding_norm`
  unfoldable pub named_entity_count : FeatureExtractor F → Patterns → Name → F
  named_entity_count x p text = elim x.ner [
    | some ner ↦ float (ner (take 512 text))
    | none ↦ float (p.capitalized text)
  ]

  unfoldable pub embedding_norm : FeatureExtractor F → Name → F
  embedding_norm x text = elim x.embedder [
    | some norm ↦ norm (take 256 text)
    | none ↦ fl.div (fl.sqrt (float (length text))) (fl.lit 100 0)
  ]

  -- The tuple `values` of `_extract_features`.
  unfoldable pub values_of : FeatureExtractor F → Unicode → Patterns → Name → List F
  unfolding shannon_entropy vocabulary is_punctuation detect_language turns_of token_count_of
      sentence_count_of lang_to_float reasoning_score coding_probability named_entity_count
      embedding_norm Dict.contains count
  values_of x u p text =
      let chars = length text in
      let words = p.words text in
      let word_count = length words in
      let token_count = token_count_of u p text in
      let vocab_size = length (vocabulary u words) in
      let total_chars = max chars 1 in
      let q_marks = count text "?" in
      let entropy : F = shannon_entropy text in
      let sentence_count = sentence_count_of u p text in
      let stopword_count = count_if (λ w. Dict.contains stopwords (u.lower w)) words in
      float token_count
      ∷ float chars
      ∷ float word_count
      ∷ fl.div (float chars) (float token_count)
      ∷ ratio chars word_count
      ∷ float vocab_size
      ∷ ratio vocab_size word_count
      ∷ entropy
      ∷ (if ltb 1 vocab_size
          then fl.div entropy (fl.log2 (float (max vocab_size 2)))
          else fl.lit 0 0)
      ∷ float (count_if is_punctuation text)
      ∷ float q_marks
      ∷ float (count text "!")
      ∷ float (count text ".")
      ∷ float (count text ",")
      ∷ float (count_if u.isdigit text)
      ∷ fl.div (float (count_if u.isupper text)) (float total_chars)
      ∷ fl.div (float (count_if u.islower text)) (float total_chars)
      ∷ fl.div (float (count_if u.isspace text)) (float total_chars)
      ∷ flag (p.markdown text)
      ∷ flag (p.code_fence text)
      ∷ flag (p.python text)
      ∷ flag (p.sql text)
      ∷ flag (p.json text)
      ∷ flag (p.xml text)
      ∷ flag (p.yaml text)
      ∷ float (p.urls text)
      ∷ float (count text "\n")
      ∷ float (max (turns_of text) 1)
      ∷ flag (p.system text)
      ∷ flag (p.assistant text)
      ∷ flag (p.user text)
      ∷ lang_to_float (detect_language p text)
      ∷ fl.div (float (count_if (λ c. ltb 127 c) text)) (float total_chars)
      ∷ reasoning_score u p text q_marks word_count
      ∷ coding_probability u p text
      ∷ ratio stopword_count word_count
      ∷ float sentence_count
      ∷ fl.div (float word_count) (float sentence_count)
      ∷ (if x.enable_ner then named_entity_count x p text else fl.lit 0 0)
      ∷ (if x.enable_embedding then embedding_norm x text else fl.lit 0 0)
      ∷ []

  -- `_extract_features`: `none` is the exception of a vector of another length.
  unfoldable pub extract_features : FeatureExtractor F → Unicode → Patterns → Name → Option (List F)
  unfolding values_of feature_vector
  extract_features x u p text = feature_vector (values_of x u p text)

  -- `extract`, with the times `t0` and `t1` around the extraction
  unfoldable pub extract :
      FeatureExtractor F → Unicode → Patterns → F → F → Name → Option (ExtractionResult F)
  unfolding extract_features
  extract x u p t0 t1 text = elim (extract_features x u p text) [
    | none ↦ none
    | some features ↦ some (record {
      features = features;
      latency_ms = fl.mul (fl.sub t1 t0) (fl.lit 1000 0);
      prompt = text;
    })
  ]
