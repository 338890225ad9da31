-- ===== src/Predictor/Features.antt =====
-- python/predictor/features.py: the feature names and the feature vectors.
pub mod RoundTrip
use ai_infrastructure_platfo.Prelude.{
  ℕ, ◌≡◌, String, Bool, true, false, Option, none, some, List, [], ◌∷◌, length, ◌==◌, string_eq,
  map, if◌then◌else◌,
}
use ai_infrastructure_platfo.Dict
use ai_infrastructure_platfo.Floats.{Floats}

abbrev pub feature_names : List String
feature_names =
    "prompt_token_count" ∷ "prompt_char_count" ∷ "word_count" ∷ "avg_token_length"
    ∷ "avg_word_length" ∷ "vocabulary_size" ∷ "unique_word_ratio" ∷ "prompt_entropy"
    ∷ "information_density" ∷ "punctuation_count" ∷ "question_mark_count" ∷ "exclamation_count"
    ∷ "period_count" ∷ "comma_count" ∷ "digit_count" ∷ "uppercase_ratio" ∷ "lowercase_ratio"
    ∷ "whitespace_ratio" ∷ "has_markdown" ∷ "has_code_fence" ∷ "has_python" ∷ "has_sql" ∷ "has_json"
    ∷ "has_xml" ∷ "has_yaml" ∷ "url_count" ∷ "newline_count" ∷ "conversation_turn_count"
    ∷ "has_system_prompt" ∷ "has_assistant_prompt" ∷ "has_user_prompt" ∷ "language_code"
    ∷ "unicode_ratio" ∷ "reasoning_score" ∷ "coding_probability" ∷ "stopword_ratio"
    ∷ "sentence_count" ∷ "avg_sentence_length" ∷ "named_entity_count" ∷ "embedding_norm" ∷ []

abbrev pub num_features : ℕ
num_features = length feature_names

module _ {F : Type 0} where
  -- `FeatureVector(values)`: `none` is the `ValueError` of a wrong length.
  unfoldable pub feature_vector : List F → Option (List F)
  feature_vector values = if length values == num_features then some values else none

  -- `zip(names, values, strict=True)`: `none` is the `ValueError` of different lengths.
  unfoldable pub zip_strict : List String → List F → Option (List (String × F))
  zip_strict [] [] = some []
  zip_strict [] (v ∷ values) = none
  zip_strict (k ∷ names) [] = none
  zip_strict (k ∷ names) (v ∷ values) = elim (zip_strict names values) [
    | none ↦ none
    | some pairs ↦ some ((k, v) ∷ pairs)
  ]

  -- `dict(pairs)`
  unfoldable pub dict_from : List (String × F) → List (String × F) → List (String × F)
  dict_from d [] = d
  dict_from d ((k, v) ∷ pairs) = dict_from (Dict.put d k v) pairs

  -- `as_dict`
  unfoldable pub as_dict : List F → Option (List (String × F))
  unfolding zip_strict dict_from
  as_dict values = elim (zip_strict feature_names values) [
    | none ↦ none
    | some pairs ↦ some (dict_from [] pairs)
  ]

  -- `tuple(data[name] for name in names)`: `none` is the `KeyError`.
  unfoldable pub pick : List (String × F) → List String → Option (List F)
  pick d [] = some []
  pick d (k ∷ names) = elim (Dict.get d k) [
    | none ↦ none
    | some v ↦ elim (pick d names) [ none ↦ none | some values ↦ some (v ∷ values) ]
  ]

  -- `FeatureVector.from_dict`
  unfoldable pub from_dict : List (String × F) → Option (List F)
  unfolding pick feature_vector
  from_dict d = elim (pick d feature_names) [ none ↦ none | some values ↦ feature_vector values ]

  -- `FeatureVector.zeros()`
  unfoldable pub zeros : ⦃fl : Floats F⦄ → Option (List F)
  unfolding feature_vector
  zeros ⦃fl⦄ = feature_vector (map (λ _. fl.lit 0 0) feature_names)
