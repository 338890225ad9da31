-- ===== src/Pipeline.antt =====
-- python/training and python/predictor/export.py: the scripts that prepare a data set, train and export
-- the predictor, and evaluate it. `F` is `float` and `G` NumPy's `float32`; PyTorch, NumPy's
-- reductions, the metrics of the test split and the files are arguments.
pub mod Serving
pub mod Splits
pub mod Train
use mathlib.Core.Option
use ai_infrastructure_platfo.Prelude.{
  ℕ, zero, suc, String, Bool, true, false, Option, none, some, List, [], ◌∷◌, ◌++◌, length, take,
  map, if◌then◌else◌,
}
use ai_infrastructure_platfo.Codes.{Name, codes}
use ai_infrastructure_platfo.Floats.{Floats}
use ai_infrastructure_platfo.Predictor.Features.{feature_names, num_features}
use ai_infrastructure_platfo.Predictor.Model.{
  ModelConfig, Module, linear, layer_norm, relu, dropout, net_of, default_model,
}
use ai_infrastructure_platfo.Predictor.Dataset.{
  Sample, Row, Candidate, DatasetSplits, deduplicate, split,
}
use ai_infrastructure_platfo.Predictor.Dataset.Sources.{load_preset}
use ai_infrastructure_platfo.Predictor.Inference.{Metadata, standardize}
use ai_infrastructure_platfo.Predictor.Training.{Progress}
use ai_infrastructure_platfo.Predictor.Training.Epochs.{
  TrainConfig, Torch, default_config, trained, train_model,
}

-- The sections of `configs/training.yaml`; an `Option` is an entry that is read with a default.
pub record DatasetConfig (F : Type 0) : Type 0 where
  pub preset : String
  pub max_samples : ℕ
  pub train_ratio : F
  pub val_ratio : F
  pub seed : Option ℕ

pub record TrainingConfig (F : Type 0) : Type 0 where
  pub lr : F
  pub weight_decay : F
  pub batch_size : ℕ
  pub epochs : ℕ
  pub patience : ℕ
  pub grad_clip : F
  pub use_amp : Bool
  pub use_compile : Option Bool
  pub seed : ℕ
  pub device : Option String

pub record Config (F : Type 0) : Type 0 where
  pub dataset : DatasetConfig F
  pub training : TrainingConfig F
  pub hidden_dim : ℕ
  pub dropout : F
  pub model_version : Option String

-- `d.get(key, default)` of an entry.
unfoldable pub given : {A : Type 0} → Option A → A → A
given (some a) default = a
given none default = default

-- The `TrainConfig` that `train.py` makes.
unfoldable pub train_config : {F : Type 0} ⦃fl : Floats F⦄ → Config F → TrainConfig F
unfolding default_config given
train_config cfg = record default_config {
  hidden_dim = cfg.hidden_dim;
  dropout = cfg.dropout;
  lr = cfg.training.lr;
  weight_decay = cfg.training.weight_decay;
  batch_size = cfg.training.batch_size;
  epochs = cfg.training.epochs;
  patience = cfg.training.patience;
  grad_clip = cfg.training.grad_clip;
  use_amp = cfg.training.use_amp;
  use_compile = given cfg.training.use_compile false;
  seed = cfg.training.seed;
  device = given cfg.training.device "auto";
}

pub record ExportMetadata (F G : Type 0) : Type 0 where
  pub model_version : String
  pub feature_names : List String
  pub num_features : ℕ
  pub feature_mean : List G
  pub feature_std : List G
  pub hidden_dim : ℕ
  pub dropout : F
  pub training_date : Name
  pub git_sha : Name
  pub metrics : List (String × F)

-- The two entries of `metadata.json` that inference reads. Every `float32` is a `float`, so it comes
-- back from the file as it was.
unfoldable pub read_back : {F G : Type 0} → ExportMetadata F G → Metadata G
read_back meta = record {
  feature_mean = some meta.feature_mean;
  feature_std = some meta.feature_std;
}

-- `_git_sha`, with what the command prints unless it fails, and `str.strip`.
unfoldable pub git_sha : (Name → Name) → Option Name → Name
git_sha strip none = codes "unknown"
git_sha strip (some printed) = take 12 (strip printed)

-- The data sets of the scripts: `str.split`, the features of a prompt, how a number is written, the
-- hash, the cache, the rows of the data set that the preset names, the candidates of the synthetic one,
-- and the generator's permutation of a length for a seed.
module _ {F : Type 0} ⦃fl : Floats F⦄ (split_words : String → List String)
    (extract : String → List F) (str_of : ℕ → Name) (hash_prompt : String → String)
    (cache : List (Name × List Row)) (ds : List Row) (candidates : List (Candidate F))
    (permutation : ℕ → ℕ → List ℕ) where
  -- `load_preset`
  unfoldable pub preset_samples : DatasetConfig F → Option (List (Sample F))
  unfolding load_preset
  preset_samples cfg =
      Option.map (λ r. r.0)
        (load_preset split_words extract str_of hash_prompt cache cfg.preset cfg.max_samples ds
          candidates)

  -- `split` with the generator for a seed
  unfoldable pub split_with : List (Sample F) → F → F → ℕ → Option (DatasetSplits F)
  unfolding split
  split_with samples train_ratio val_ratio seed =
      split samples train_ratio val_ratio (permutation seed (length samples))

  -- The splits of `train.py` and `prepare_dataset.py`.
  unfoldable pub train_splits : DatasetConfig F → Option (DatasetSplits F)
  unfolding preset_samples split_with deduplicate given
  train_splits cfg = elim (preset_samples cfg) [
    | none ↦ none
    | some samples ↦
        split_with (deduplicate hash_prompt samples) cfg.train_ratio cfg.val_ratio
          (given cfg.seed 42)
  ]

  -- The splits of `evaluate.py`.
  unfoldable pub evaluate_splits : DatasetConfig F → Option (DatasetSplits F)
  unfolding preset_samples split_with given
  evaluate_splits cfg = elim (preset_samples cfg) [
    | none ↦ none
    | some samples ↦ split_with samples (fl.lit 8 1) (fl.lit 1 1) (given cfg.seed 42)
  ]

-- `to_tensors`. With no sample the features are an array of length 0, which has to go with the mean
-- and the deviation too; else all samples have features of one length.
module _ {F G : Type 0} ⦃gl : Floats G⦄ (f32 : F → G) where
  unfoldable pub tensor_rows : List (Sample F) → List G → List G → Option (List (List G))
  unfolding standardize
  tensor_rows [] mean std = some []
  tensor_rows (s ∷ samples) mean std = elim (standardize mean std (map f32 s.features)) [
    | none ↦ none
    | some row ↦ elim (tensor_rows samples mean std) [ none ↦ none | some rows ↦ some (row ∷ rows) ]
  ]

  unfoldable pub to_tensors : List (Sample F) → List G → List G → Option (List (List G) × List G)
  unfolding tensor_rows standardize
  to_tensors [] mean std = elim (standardize mean std []) [ none ↦ none | some _ ↦ some ([], []) ]
  to_tensors (s ∷ samples) mean std = elim (tensor_rows (s ∷ samples) mean std) [
    | none ↦ none
    | some rows ↦ some (rows, map (λ (t : Sample F). f32 t.actual_output_tokens) (s ∷ samples))
  ]
