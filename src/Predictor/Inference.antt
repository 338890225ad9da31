-- ===== src/Predictor/Inference.antt =====
-- python/predictor/predictor.py and inference.py: the normalisation of features before the network,
-- for the three ways to run it. `F` is `float`, `G` is NumPy's `float32`, `f32` and `item` convert
-- between them, and the network is an argument.
pub mod Backends
use ai_infrastructure_platfo.Prelude.{
  ℕ, zero, suc, String, Bool, true, false, Option, none, some, List, [], ◌∷◌, length, map, ◌==◌,
  string_eq, if◌then◌else◌,
}
use ai_infrastructure_platfo.Codes.{Name}
use ai_infrastructure_platfo.Floats.{Floats}
use ai_infrastructure_platfo.Predictor.Extractor.{FeatureExtractor, Unicode, Patterns, extract}
use ai_infrastructure_platfo.Predictor.Result.{PredictionResult}

-- `metadata.json`, whose two entries may be absent.
pub record Metadata (G : Type 0) : Type 0 where
  pub feature_mean : Option (List G)
  pub feature_std : Option (List G)

-- `self._mean` and `self._std`
pub record Norm (G : Type 0) : Type 0 where
  pub mean : Option (List G)
  pub std : Option (List G)

-- `meta.get(key, [])`
abbrev pub entry_of : {G : Type 0} → Option (List G) → List G
entry_of none = []
entry_of (some l) = l

-- Which class `load_predictor` makes.
pub data Backend : Type 0 where
  pytorch onnx torchscript : Backend

unfoldable backend_of : String → Backend
backend_of backend =
    if string_eq.beq backend "onnx"
    then onnx
    else if string_eq.beq backend "torchscript"
    then torchscript
    else pytorch

-- The arrays that `from_checkpoint` keeps of a metadata file, if there is one.
unfoldable pub checkpoint_norm : {G : Type 0} → Option (Metadata G) → Norm G
checkpoint_norm none = record { mean = none; std = none }
checkpoint_norm (some meta) =
    if length (entry_of meta.feature_mean) == 0
    then record { mean = none; std = none }
    else record { mean = some (entry_of meta.feature_mean); std = some (entry_of meta.feature_std) }

-- `_load_norm_arrays`
unfoldable pub load_norm_arrays : {G : Type 0} → Option (Metadata G) → Norm G
load_norm_arrays none = record { mean = none; std = none }
load_norm_arrays (some meta) = record {
  mean = some (entry_of meta.feature_mean);
  std = some (entry_of meta.feature_std);
}

module _ {G : Type 0} where
  abbrev pub zip_with : (G → G → G) → List G → List G → List G
  zip_with f [] ys = []
  zip_with f (x ∷ xs) [] = []
  zip_with f (x ∷ xs) (y ∷ ys) = f x y ∷ zip_with f xs ys

  -- An operation on two arrays of one dimension: of one length, or one of them of length one;
  -- `none` is NumPy's `ValueError`.
  unfoldable pub broadcast : (G → G → G) → List G → List G → Option (List G)
  broadcast f xs (y ∷ []) = some (map (λ x. f x y) xs)
  broadcast f (x ∷ []) ys = some (map (λ y. f x y) ys)
  broadcast f xs ys = if length xs == length ys then some (zip_with f xs ys) else none

module _ {G : Type 0} ⦃gl : Floats G⦄ where
  -- `np.where(std < 1e-8, 1.0, std)`
  unfoldable pub safe : G → G
  safe std = if gl.lt std (gl.lit 1 8) then gl.lit 1 0 else std

  -- `(arr - mean) / std` with that `std`
  unfoldable pub standardize : List G → List G → List G → Option (List G)
  unfolding broadcast safe
  standardize mean std arr = elim (broadcast gl.sub arr mean) [
    | none ↦ none
    | some centred ↦ broadcast gl.div centred (map safe std)
  ]

  -- `_to_tensor` of `OutputLengthPredictor`, and the same lines of `TorchScriptPredictor.predict`
  unfoldable pub to_tensor : Norm G → List G → Option (List G)
  unfolding standardize
  to_tensor n arr = elim n.mean [
    | none ↦ some arr
    | some mean ↦ elim n.std [ none ↦ some arr | some std ↦ standardize mean std arr ]
  ]

  -- The lines of `ONNXPredictor.predict`; a `std` of `None` there is a `TypeError`.
  unfoldable pub onnx_array : Norm G → List G → Option (List G)
  unfolding standardize
  onnx_array n arr = elim n.mean [
    | none ↦ some arr
    | some mean ↦ elim n.std [ none ↦ none | some std ↦ standardize mean std arr ]
  ]

  -- What a backend that `load_predictor` makes gives to its network.
  unfoldable pub input_of : Backend → Option (Metadata G) → List G → Option (List G)
  unfolding checkpoint_norm load_norm_arrays to_tensor onnx_array
  input_of pytorch meta arr = to_tensor (checkpoint_norm meta) arr
  input_of onnx meta arr = onnx_array (load_norm_arrays meta) arr
  input_of torchscript meta arr = to_tensor (load_norm_arrays meta) arr

module _ {F G : Type 0} ⦃fl : Floats F⦄ ⦃gl : Floats G⦄ (f32 : F → G) (item : G → F)
    (model : List G → G) where
  -- `OutputLengthPredictor.predict`, with the times of the extraction and of the network.
  unfoldable pub predict :
      FeatureExtractor F
      → Unicode
      → Patterns
      → Norm G
      → F
      → F
      → F
      → F
      → Name
      → Option (PredictionResult F)
  unfolding extract to_tensor
  predict x u p n e0 e1 t0 t1 prompt = elim (extract x u p e0 e1 prompt) [
    | none ↦ none
    | some ext ↦ elim (to_tensor n (map f32 ext.features)) [
      | none ↦ none
      | some tensor ↦ some (record {
        predicted_tokens = item (model tensor);
        features = ext.features;
        feature_latency_ms = ext.latency_ms;
        predict_latency_ms = fl.mul (fl.sub t1 t0) (fl.lit 1000 0);
      })
    ]
  ]

  -- `predict_batch`, on the times of each prompt
  unfoldable predict_batch :
      FeatureExtractor F
      → Unicode
      → Patterns
      → Norm G
      → List (F × F × F × F × Name)
      → Option (List (PredictionResult F))
  unfolding predict
  predict_batch x u p n [] = some []
  predict_batch x u p n ((e0, e1, t0, t1, prompt) ∷ prompts) =
      elim (predict x u p n e0 e1 t0 t1 prompt) [
        | none ↦ none
        | some result ↦ elim (predict_batch x u p n prompts) [
          | none ↦ none
          | some results ↦ some (result ∷ results)
        ]
      ]
