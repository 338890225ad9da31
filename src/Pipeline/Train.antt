-- ===== src/Pipeline/Train.antt =====
-- python/training/train.py and python/predictor/export.py: the training of the predictor from its
-- splits to the exported metadata. An exception is `none`.
pub mod Width
use ai_infrastructure_platfo.Prelude.{
  ℕ, zero, suc, String, Bool, true, false, Option, none, some, List, [], ◌∷◌, ◌++◌, map, ◌/◌,
  if◌then◌else◌,
}
use ai_infrastructure_platfo.Codes.{Name}
use ai_infrastructure_platfo.Floats.{Floats}
use ai_infrastructure_platfo.Predictor.Features.{feature_names, num_features}
use ai_infrastructure_platfo.Predictor.Model.{
  ModelConfig, Module, linear, layer_norm, relu, dropout, net_of, default_model,
}
use ai_infrastructure_platfo.Predictor.Dataset.{Sample, DatasetSplits}
use ai_infrastructure_platfo.Predictor.Training.{Progress}
use ai_infrastructure_platfo.Predictor.Training.Epochs.{TrainConfig, Torch, trained, train_model}
use ai_infrastructure_platfo.Pipeline.{
  Config, ExportMetadata, given, train_config, git_sha, to_tensors,
}

-- The sizes of the parameters of the modules, a weight and a bias of each that has any.
unfoldable pub parameters : {F : Type 0} → List (Module F) → List (List ℕ)
parameters [] = []
parameters (linear size out ∷ net) = (out ∷ size ∷ []) ∷ (out ∷ []) ∷ parameters net
parameters (layer_norm size ∷ net) = (size ∷ []) ∷ (size ∷ []) ∷ parameters net
parameters (relu ∷ net) = parameters net
parameters (dropout rate ∷ net) = parameters net

-- `ModelConfig(hidden_dim=..., dropout=...)`
unfoldable pub model_config : {F : Type 0} ⦃fl : Floats F⦄ → ℕ → F → ModelConfig F
unfolding default_model
model_config hidden_dim rate = record default_model { hidden_dim = hidden_dim; dropout = rate }

-- What the scripts use beside the training step: the state of a new model, its weights, whether
-- weights can be loaded into a net, the batches of a loader in an epoch, NumPy's mean and deviation of
-- the rows, and the metrics of weights on a test split.
pub record Runtime (F G M B W : Type 0) : Type 0 where
  pub torch : Torch F M B
  pub fresh : List (Module F) → M
  pub state_dict : M → W
  pub fits : List (Module F) → W → Bool
  pub batches : ℕ → Bool → ℕ → List (List G) × List G → List B
  pub mean_of : List (List F) → List G
  pub std_of : List (List F) → List G
  pub test_metrics : W → List (List G) × List G → List (String × F)

module _ {F G M B W : Type 0} ⦃fl : Floats F⦄ ⦃gl : Floats G⦄ (f32 : F → G)
    (rt : Runtime F G M B W) where
  -- The features of the training split, of which `split` takes the mean and the deviation.
  abbrev pub train_features : DatasetSplits F → List (List F)
  train_features splits = map (λ (s : Sample F). s.features) splits.train

  abbrev pub feature_mean : DatasetSplits F → List G
  feature_mean splits = rt.mean_of (train_features splits)

  abbrev pub feature_std : DatasetSplits F → List G
  feature_std splits = rt.std_of (train_features splits)

  -- `_make_loaders`: the batches of the training in each epoch, and those of the validation.
  unfoldable pub make_loaders : TrainConfig F → DatasetSplits F → Option ((ℕ → List B) × List B)
  unfolding to_tensors
  make_loaders cfg splits =
      elim (to_tensors f32 splits.train (feature_mean splits) (feature_std splits)) [
        | none ↦ none
        | some train ↦ elim (to_tensors f32 splits.val (feature_mean splits) (feature_std splits)) [
          | none ↦ none
          | some val ↦ some (
            (λ epoch. rt.batches cfg.batch_size true epoch train),
            rt.batches cfg.batch_size false 0 val,
          )
        ]
      ]

  -- The state of the model at the end of an epoch of `Trainer.train`, and the outcome.
  abbrev pub new_model : TrainConfig F → M
  new_model cfg = rt.fresh (net_of (model_config cfg.hidden_dim cfg.dropout))

  -- What is in `best.pt` after the training, with what was there before.
  unfoldable pub checkpoint :
      TrainConfig F → (ℕ → List B) → List B → Option W → Progress F → Option W
  unfolding trained
  checkpoint cfg train_loader val_loader old p = elim p.saved [
    | none ↦ old
    | some k ↦ some (rt.state_dict (trained rt.torch train_loader val_loader (new_model cfg) k).0)
  ]

  -- `torch.load` of a file and `load_state_dict` into a net
  unfoldable pub load_weights : List (Module F) → Option W → Option W
  load_weights net none = none
  load_weights net (some w) = if rt.fits net w then some w else none

  -- `export_model`, with the time and what the command of `_git_sha` gives: the metadata.
  unfoldable pub export_model :
      Option W
      → Config F
      → DatasetSplits F
      → List (String × F)
      → Name
      → (Name → Name)
      → Option Name
      → Option (ExportMetadata F G)
  unfolding load_weights git_sha given
  export_model file cfg splits metrics now strip printed =
      elim (load_weights (net_of (model_config cfg.hidden_dim cfg.dropout)) file) [
        | none ↦ none
        | some w ↦ some (record {
          model_version = given cfg.model_version "1.0.0";
          feature_names = feature_names;
          num_features = num_features;
          feature_mean = feature_mean splits;
          feature_std = feature_std splits;
          hidden_dim = cfg.hidden_dim;
          dropout = cfg.dropout;
          training_date = now;
          git_sha = git_sha strip printed;
          metrics = metrics;
        })
      ]

  -- The metrics that `main` gives to `export_model`. Infinity, the best value without an epoch, and
  -- the number of the epoch are written as `infinity` and `fl.lit`.
  abbrev pub metrics_of : W → List (List G) × List G → Progress F → F → List (String × F)
  metrics_of w test p infinity =
      rt.test_metrics w test
      ++ ("best_val_loss", given p.best_val infinity) ∷ ("best_epoch", fl.lit p.best_epoch 0) ∷ []

  -- `main` of `train.py` from the splits on.
  unfoldable pub train_main :
      Config F
      → DatasetSplits F
      → Option W
      → F
      → Name
      → (Name → Name)
      → Option Name
      → Option (ExportMetadata F G)
  unfolding make_loaders train_model train_config checkpoint load_weights to_tensors export_model
  train_main cfg splits old infinity now strip printed =
      let tc = train_config cfg in
      elim (make_loaders tc splits) [
        | none ↦ none
        | some (train_loader, val_loader) ↦
            let p = train_model rt.torch train_loader val_loader tc (new_model tc) in
            let file = checkpoint tc train_loader val_loader old p in
            elim (load_weights (net_of default_model) file) [
              | none ↦ none
              | some w ↦
                  elim (to_tensors f32 splits.test (feature_mean splits) (feature_std splits)) [
                    | none ↦ none
                    | some test ↦
                        export_model file cfg splits (metrics_of w test p infinity) now strip
                          printed
                  ]
            ]
      ]
