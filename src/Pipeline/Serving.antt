-- ===== src/Pipeline/Serving.antt =====
-- python/predictor/export.py and python/predictor/inference.py: whether the network is served the
-- features that it was trained on.
use mathlib.Core.Option
use ai_infrastructure_platfo.Prelude.{
  ◌≡◌, ◌≤◌, refl, sym, ◌∙◌, false, Option, none, some, List, [], ◌∷◌, length, map, arith, ◌==◌,
  String, Option-cases, inl, inr,
}
use ai_infrastructure_platfo.Codes.{Name}
use ai_infrastructure_platfo.Floats.{Floats}
use ai_infrastructure_platfo.Predictor.Dataset.{Sample, DatasetSplits}
use ai_infrastructure_platfo.Predictor.Inference.{
  Metadata, Backend, pytorch, onnx, torchscript, input_of, to_tensor, onnx_array, checkpoint_norm,
  load_norm_arrays, standardize,
}
use ai_infrastructure_platfo.Pipeline.{Config, ExportMetadata, read_back, tensor_rows, to_tensors}
use ai_infrastructure_platfo.Pipeline.Train.{Runtime, feature_mean, feature_std, export_model}

module _ {F G : Type 0} ⦃gl : Floats G⦄ (f32 : F → G) where
  -- What a backend gives to its network for the features of each sample.
  unfoldable pub inputs : Backend → Metadata G → List (Sample F) → Option (List (List G))
  unfolding input_of
  inputs b meta [] = some []
  inputs b meta (s ∷ samples) = elim (input_of b (some meta) (map f32 s.features)) [
    | none ↦ none
    | some row ↦ elim (inputs b meta samples) [ none ↦ none | some rows ↦ some (row ∷ rows) ]
  ]

  input_of-standardize :
      (b : Backend) (meta : Metadata G) (mean std arr : List G)
      → meta.feature_mean ≡ some mean
      → meta.feature_std ≡ some std
      → 1 ≤ length mean
      → input_of b (some meta) arr ≡ standardize mean std arr
  unfolding input_of checkpoint_norm load_norm_arrays to_tensor onnx_array
  input_of-standardize pytorch meta mean std arr m s h =
      let some_mean : (length mean == 0) ≡ false = ground arith in rw (m, s, some_mean) refl
  input_of-standardize onnx meta mean std arr m s h = rw (m, s) refl
  input_of-standardize torchscript meta mean std arr m s h = rw (m, s) refl

  inputs-tensor_rows :
      (b : Backend) (meta : Metadata G) (mean std : List G) (samples : List (Sample F))
      → meta.feature_mean ≡ some mean
      → meta.feature_std ≡ some std
      → 1 ≤ length mean
      → inputs b meta samples ≡ tensor_rows f32 samples mean std
  unfolding tensor_rows inputs
  inputs-tensor_rows b meta mean std [] m s h = refl
  inputs-tensor_rows b meta mean std (x ∷ samples) m s h =
      let same = input_of-standardize b meta mean std (map f32 x.features) m s h in
      let later = inputs-tensor_rows b meta mean std samples m s h in
      elim (Option-cases (standardize mean std (map f32 x.features))) [
        | inl f ↦ rw (same, f, inputs, tensor_rows) refl
        | inr (row, f) ↦ rw (same, f, later, inputs, tensor_rows) refl
      ]

  to_tensors-tensor_rows :
      (s : Sample F) (samples : List (Sample F)) (mean std : List G)
      → Option.map (λ t. t.0) (to_tensors f32 (s ∷ samples) mean std)
        ≡ tensor_rows f32 (s ∷ samples) mean std
  unfolding to_tensors
  to_tensors-tensor_rows s samples mean std =
      elim (Option-cases (tensor_rows f32 (s ∷ samples) mean std)) [
        | inl f ↦ rw (f, to_tensors) refl
        | inr (rows, f) ↦ rw (f, to_tensors) refl
      ]

module _ {F G M B W : Type 0} ⦃fl : Floats F⦄ ⦃gl : Floats G⦄ (f32 : F → G)
    (rt : Runtime F G M B W) where
  exported :
      (file : Option W) (cfg : Config F) (splits : DatasetSplits F) (metrics : List (String × F))
      (now : Name) (strip : Name → Name) (printed : Option Name) (meta : ExportMetadata F G)
      → export_model f32 rt file cfg splits metrics now strip printed ≡ some meta
      → ((read_back meta).feature_mean ≡ some (feature_mean f32 rt splits))
        × ((read_back meta).feature_std ≡ some (feature_std f32 rt splits))
  unfolding export_model read_back
  exported file cfg splits metrics now strip printed meta e = ground arith

  -- Where the model is exported and its features have a mean, every backend that reads the exported
  -- metadata gives its network, for any samples, what the training and its test would give it for
  -- them, and raises where those would.
  pub inputs-to_tensors :
      (b : Backend) (file : Option W) (cfg : Config F) (splits : DatasetSplits F)
      (metrics : List (String × F)) (now : Name) (strip : Name → Name) (printed : Option Name)
      (meta : ExportMetadata F G) (s : Sample F) (samples : List (Sample F))
      → export_model f32 rt file cfg splits metrics now strip printed ≡ some meta
      → 1 ≤ length (feature_mean f32 rt splits)
      → inputs f32 b (read_back meta) (s ∷ samples)
        ≡ Option.map
            (λ t. t.0)
            (to_tensors f32 (s ∷ samples) (feature_mean f32 rt splits) (feature_std f32 rt splits))
  inputs-to_tensors b file cfg splits metrics now strip printed meta s samples e h =
      let (m, d) = exported file cfg splits metrics now strip printed meta e in
      inputs-tensor_rows f32 b (read_back meta) (feature_mean f32 rt splits)
        (feature_std f32 rt splits) (s ∷ samples) m d h
      ∙ sym (
          to_tensors-tensor_rows f32 s samples (feature_mean f32 rt splits)
            (feature_std f32 rt splits))
