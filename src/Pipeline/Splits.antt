-- ===== src/Pipeline/Splits.antt =====
-- python/training/evaluate.py: whether it evaluates on the samples that the training left out.
use ai_infrastructure_platfo.Prelude.{
  ℕ, ◌≡◌, ◌≤◌, refl, ap, String, false, some, List, [], ◌∷◌, string_eq, arith, if◌then◌else◌,
}
use text.Mathlib.TextEquality.{eq_iff}
use ai_infrastructure_platfo.Prelude.Counts.{count_if}
use ai_infrastructure_platfo.Codes.{Name}
use ai_infrastructure_platfo.Dict
use ai_infrastructure_platfo.Dict.{contains-add}
use ai_infrastructure_platfo.Floats.{Floats}
use ai_infrastructure_platfo.Predictor.Dataset.{
  Sample, Row, Candidate, dedup_from, deduplicate, synthesize,
}
use ai_infrastructure_platfo.Predictor.Dataset.Dedup.{has_hash, synthesize_bounds}
use ai_infrastructure_platfo.Predictor.Dataset.Sources.{load_preset, preset_source}
use ai_infrastructure_platfo.Pipeline.{DatasetConfig, preset_samples, train_splits, evaluate_splits}

module _ {F : Type 0} (hash_prompt : String → String) where
  -- Samples of different hashes, none of which was seen, are all kept.
  dedup_from_distinct :
      (seen : List String) (samples : List (Sample F))
      → ((h : String)
          → count_if (has_hash hash_prompt h) samples ≤ (if Dict.contains seen h then 0 else 1))
      → dedup_from hash_prompt seen samples ≡ samples
  unfolding dedup_from
  dedup_from_distinct seen [] d = refl
  dedup_from_distinct seen (s ∷ samples) d =
      let k = hash_prompt s.prompt in
      let fresh : Dict.contains seen k ≡ false = ground (arith, d k, eq_iff k k) in
      let later : (h : String)
          → count_if (has_hash hash_prompt h) samples
            ≤ (if Dict.contains (Dict.add seen k) h then 0 else 1) =
        λ h. ground (arith, d h, contains-add seen k h, eq_iff k h) in
      rw (fresh, dedup_from) (ap (λ l. s ∷ l) (dedup_from_distinct (Dict.add seen k) samples later))

module _ {F : Type 0} ⦃fl : Floats F⦄ (split_words : String → List String)
    (extract : String → List F) (str_of : ℕ → Name) (hash_prompt : String → String)
    (cache : List (Name × List Row)) (ds : List Row) (candidates : List (Candidate F))
    (permutation : ℕ → ℕ → List ℕ) where
  synthetic-samples :
      (cfg : DatasetConfig F)
      → cfg.preset ≡ "synthetic"
      → preset_samples split_words extract str_of hash_prompt cache ds candidates permutation cfg
        ≡ some (synthesize hash_prompt extract cfg.max_samples [] candidates)
  unfolding preset_samples load_preset preset_source
  synthetic-samples cfg e = rw e refl

  deduplicate-synthesize :
      (n : ℕ)
      → deduplicate hash_prompt (synthesize hash_prompt extract n [] candidates)
        ≡ synthesize hash_prompt extract n [] candidates
  unfolding deduplicate Dict.contains
  deduplicate-synthesize n =
      dedup_from_distinct hash_prompt [] (synthesize hash_prompt extract n [] candidates)
        (λ h. (synthesize_bounds hash_prompt extract n candidates h).1)

  -- With the synthetic preset and the ratios 0.8 and 0.1 in the configuration, the evaluation splits
  -- the samples as the training does, so that its test split is that of the training.
  pub evaluate_splits-train_splits :
      (cfg : DatasetConfig F)
      → cfg.preset ≡ "synthetic"
      → cfg.train_ratio ≡ fl.lit 8 1
      → cfg.val_ratio ≡ fl.lit 1 1
      → evaluate_splits split_words extract str_of hash_prompt cache ds candidates permutation cfg
        ≡ train_splits split_words extract str_of hash_prompt cache ds candidates permutation cfg
  unfolding evaluate_splits train_splits
  evaluate_splits-train_splits cfg e t v =
      rw
        (
          synthetic-samples cfg e,
          deduplicate-synthesize cfg.max_samples,
          t,
          v,
          evaluate_splits,
          train_splits,
        )
        refl
