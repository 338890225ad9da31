-- ===== src/Pipeline/Train/Width.antt =====
-- python/training/train.py: with which width of the hidden layer the training ends.
use ai_infrastructure_platfo.Prelude.{
  ℕ, ◌≡◌, ◌≢◌, ◌≤◌, refl, ap, true, Option, none, some, List, ◌∷◌, Bool-cases, Option-cases, inl,
  inr,
}
use ai_infrastructure_platfo.Codes.{Name}
use ai_infrastructure_platfo.Floats.{Floats}
use ai_infrastructure_platfo.Predictor.Model.{Module, net_of, default_model}
use ai_infrastructure_platfo.Predictor.Dataset.{DatasetSplits}
use ai_infrastructure_platfo.Predictor.Training.Epochs.{trained, train_model}
use ai_infrastructure_platfo.Predictor.Training.Epochs.Checkpoint.{train_model-eval_epoch}
use ai_infrastructure_platfo.Pipeline.{Config, train_config}
use ai_infrastructure_platfo.Pipeline.Train.{
  Runtime, parameters, model_config, make_loaders, new_model, checkpoint, load_weights, train_main,
}

-- The width of a layer from the sizes of its parameters.
abbrev first_width : List (List ℕ) → ℕ
first_width ((n ∷ size) ∷ shapes) = n
first_width shapes = 0

module _ {F : Type 0} ⦃fl : Floats F⦄ where
  parameters-width :
      (hidden_dim : ℕ) (rate : F)
      → parameters (net_of (model_config hidden_dim rate))
        ≡ parameters {F = F} (net_of default_model)
      → hidden_dim ≡ 128
  unfolding parameters net_of model_config default_model
  parameters-width hidden_dim rate e = ap first_width e

module _ {F G M B W : Type 0} ⦃fl : Floats F⦄ ⦃gl : Floats G⦄ (f32 : F → G)
    (rt : Runtime F G M B W) where
  -- Weights can be loaded into nets of one list of sizes only.
  abbrev pub Strict : Type 0
  Strict =
      (a b : List (Module F)) (w : W)
      → rt.fits a w ≡ true
      → rt.fits b w ≡ true
      → parameters a ≡ parameters b

  -- A model's weights can be loaded into its own net, however it was trained.
  abbrev pub Reloads : Type 0
  Reloads =
      (net : List (Module F)) (train_loader : ℕ → List B) (val_loader : List B) (k : ℕ)
      → rt.fits net (rt.state_dict (trained rt.torch train_loader val_loader (rt.fresh net) k).0)
        ≡ true

  not_loaded :
      Strict
      → Reloads
      → (hidden_dim k : ℕ) (rate : F) (train_loader : ℕ → List B) (val_loader : List B)
      → hidden_dim ≢ 128
      → load_weights f32 rt (net_of default_model) (
          some (
            rt.state_dict
              (trained rt.torch train_loader val_loader
                (rt.fresh (net_of (model_config hidden_dim rate)))
                k).0))
        ≡ none
  unfolding load_weights
  not_loaded strict reloads hidden_dim k rate train_loader val_loader other =
      let net = net_of (model_config hidden_dim rate) in
      let w = rt.state_dict (trained rt.torch train_loader val_loader (rt.fresh net) k).0 in
      elim (Bool-cases (rt.fits (net_of default_model) w)) [
        | inr misfit ↦ rw (misfit, load_weights) refl
        | inl fit ↦ absurd (
            other (
              parameters-width hidden_dim rate
                (strict net (net_of default_model) w (reloads net train_loader val_loader k) fit)))
      ]

  unloaded :
      Strict
      → Reloads
      → (cfg : Config F) (old : Option W) (train_loader : ℕ → List B) (val_loader : List B)
      → 1 ≤ cfg.training.epochs
      → cfg.hidden_dim ≢ 128
      → let tc = train_config cfg in
        load_weights f32 rt (net_of default_model) (
          checkpoint f32 rt tc train_loader val_loader old
            (train_model rt.torch train_loader val_loader tc (new_model f32 rt tc)))
        ≡ none
  unfolding checkpoint train_config
  unloaded strict reloads cfg old train_loader val_loader runs other =
      let tc = train_config cfg in
      let p = train_model rt.torch train_loader val_loader tc (new_model f32 rt tc) in
      let (saved, _) =
        train_model-eval_epoch rt.torch train_loader val_loader tc (new_model f32 rt tc) runs in
      rw (saved, checkpoint)
        (not_loaded strict reloads cfg.hidden_dim p.best_epoch cfg.dropout train_loader val_loader
          other)

  -- The script loads the checkpoint of a training of at least one epoch into a network of the default
  -- width, so with any other width in the configuration it raises and exports nothing.
  pub train_main-hidden_dim :
      Strict
      → Reloads
      → (cfg : Config F) (splits : DatasetSplits F) (old : Option W) (infinity : F) (now : Name)
        (strip : Name → Name) (printed : Option Name)
      → 1 ≤ cfg.training.epochs
      → cfg.hidden_dim ≢ 128
      → train_main f32 rt cfg splits old infinity now strip printed ≡ none
  unfolding train_main train_config
  train_main-hidden_dim strict reloads cfg splits old infinity now strip printed runs other =
      elim (Option-cases (make_loaders f32 rt (train_config cfg) splits)) [
        | inl failed ↦ rw (failed, train_main) refl
        | inr ((train_loader, val_loader), made) ↦
            rw
              (made, unloaded strict reloads cfg old train_loader val_loader runs other, train_main)
              refl
      ]
