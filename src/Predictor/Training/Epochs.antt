-- ===== src/Predictor/Training/Epochs.antt =====
-- python/predictor/trainer.py: the epochs of `Trainer`, over PyTorch's step on a batch, and the
-- training as a whole with its device and its loggers.
pub mod Checkpoint
use ai_infrastructure_platfo.Prelude.{
  ℕ, zero, suc, ◌+◌, ◌-◌, String, Bool, true, false, ◌&&◌, ◌||◌, not, Option, none, some, List, [],
  ◌∷◌, ◌++◌, length, map, max, string_eq, if◌then◌else◌,
}
use ai_infrastructure_platfo.Floats.{Floats}
use ai_infrastructure_platfo.Predictor.Training.{TrainMetrics, Progress, train}

-- `TrainConfig`
pub record TrainConfig (F : Type 0) : Type 0 where
  pub hidden_dim : ℕ
  pub dropout : F
  pub lr : F
  pub weight_decay : F
  pub batch_size : ℕ
  pub epochs : ℕ
  pub patience : ℕ
  pub grad_clip : F
  pub seed : ℕ
  pub use_amp : Bool
  pub use_compile : Bool
  pub checkpoint_dir : String
  pub log_dir : String
  pub device : String

unfoldable pub default_config : {F : Type 0} ⦃fl : Floats F⦄ → TrainConfig F
default_config ⦃fl⦄ = record {
  hidden_dim = 128;
  dropout = fl.lit 1 1;
  lr = fl.lit 1 3;
  weight_decay = fl.lit 1 4;
  batch_size = 256;
  epochs = 50;
  patience = 8;
  grad_clip = fl.lit 1 0;
  seed = 42;
  use_amp = true;
  use_compile = false;
  checkpoint_dir = "models/checkpoints";
  log_dir = "models/logs";
  device = "auto";
}

-- `_resolve_device`, and whether the scaler is enabled
unfoldable pub resolve_device : String → Bool → String
resolve_device device cuda =
    if string_eq.beq device "auto" then (if cuda then "cuda" else "cpu") else device

unfoldable pub amp_enabled : {F : Type 0} → TrainConfig F → Bool → Bool
unfolding resolve_device
amp_enabled cfg cuda = cfg.use_amp && string_eq.beq (resolve_device cfg.device cuda) "cuda"

-- What PyTorch does with a model, its optimizer and the schedule of its learning rate: a training step
-- on a batch gives the new state and the loss, an evaluation the loss, the predictions and the
-- targets. NumPy's reductions.
pub record Torch (F M B : Type 0) : Type 0 where
  pub train_batch : M → B → M × F
  pub eval_batch : M → B → F × List F × List F
  pub scheduler_step : M → M
  pub lr_of : M → F
  pub size : B → ℕ
  pub np_mean : List F → F
  pub np_sum : List F → F

module _ {F M B : Type 0} ⦃fl : Floats F⦄ (torch : Torch F M B) where
  unfoldable pub abs : F → F
  abs a = if fl.lt a (fl.lit 0 0) then fl.sub (fl.lit 0 0) a else a

  unfoldable pub differences : List F → List F → List F
  differences (a ∷ xs) (b ∷ ys) = fl.sub a b ∷ differences xs ys
  differences xs ys = []

  -- `_regression_metrics`: mae, rmse and r2.
  unfoldable pub regression_metrics : List F → List F → F × F × F
  unfolding abs differences
  regression_metrics y_true y_pred =
      let errors = differences y_true y_pred in
      let squares = map (λ e. fl.mul e e) errors in
      let ss_res = torch.np_sum squares in
      let ss_tot =
        torch.np_sum (map (λ y. let d = fl.sub y (torch.np_mean y_true) in fl.mul d d) y_true) in
      (
        torch.np_mean (map abs errors),
        fl.sqrt (torch.np_mean squares),
        if fl.lt (fl.lit 0 0) ss_tot
            then fl.sub (fl.lit 1 0) (fl.div ss_res ss_tot)
            else fl.lit 0 0,
      )

  -- The loop of `_train_epoch`, with `total_loss` and `n`, and its end.
  unfoldable pub train_batches : M → F → ℕ → List B → M × F
  train_batches m total_loss n [] = (m, fl.div total_loss (fl.lit (max n 1) 0))
  train_batches m total_loss n (b ∷ batches) =
      let (m', loss) = torch.train_batch m b in
      train_batches m' (fl.add total_loss (fl.mul loss (fl.lit (torch.size b) 0)))
        (n + torch.size b) batches

  unfoldable pub train_epoch : M → List B → M × F
  unfolding train_batches
  train_epoch m batches = train_batches m (fl.lit 0 0) 0 batches

  -- The loop of `_eval_epoch`, with what it gathers, and its end.
  unfoldable pub eval_batches : M → F → ℕ → List F → List F → List B → F × F × F × F
  unfolding regression_metrics
  eval_batches m total_loss n preds targets [] =
      let (mae, rmse, r2) = regression_metrics targets preds in
      (fl.div total_loss (fl.lit (max n 1) 0), mae, rmse, r2)
  eval_batches m total_loss n preds targets (b ∷ batches) =
      let (loss, pred, yb) = torch.eval_batch m b in
      eval_batches m (fl.add total_loss (fl.mul loss (fl.lit (torch.size b) 0))) (n + torch.size b)
        (preds ++ pred) (targets ++ yb) batches

  unfoldable pub eval_epoch : M → List B → F × F × F × F
  unfolding eval_batches
  eval_epoch m batches = eval_batches m (fl.lit 0 0) 0 [] [] batches

  -- The training loader shuffles, so its batches are those of an epoch.
  module _ (train_loader : ℕ → List B) (val_loader : List B) where
    -- The state after some epochs, from that of the new model.
    unfoldable pub state_after : M → ℕ → M
    unfolding train_epoch
    state_after fresh zero = fresh
    state_after fresh (suc k) =
        torch.scheduler_step (train_epoch (state_after fresh k) (train_loader (suc k))).0

    -- The model and the loss of the training in an epoch, of which the first is 1.
    unfoldable pub trained : M → ℕ → M × F
    unfolding state_after train_epoch
    trained fresh epoch = train_epoch (state_after fresh (epoch - 1)) (train_loader epoch)

    -- The metrics of an epoch.
    unfoldable pub measure : M → ℕ → TrainMetrics F
    unfolding trained eval_epoch
    measure fresh epoch =
        let (model, train_loss) = trained fresh epoch in
        let (val_loss, val_mae, val_rmse, val_r2) = eval_epoch model val_loader in
        record {
          epoch = epoch;
          train_loss = train_loss;
          val_loss = val_loss;
          val_mae = val_mae;
          val_rmse = val_rmse;
          val_r2 = val_r2;
          lr = torch.lr_of (torch.scheduler_step model);
        }

    -- `Trainer.train` with the new model
    unfoldable pub train_model : TrainConfig F → M → Progress F
    unfolding measure train
    train_model cfg fresh = train (measure fresh) cfg.patience cfg.epochs

    -- `Trainer.resume`: the weights are read, loaded into a model and written again; the training that
    -- follows makes a new model. `none` is the exception, for a file that is missing or does not fit.
    unfoldable pub resume :
        {W : Type 0} → TrainConfig F → (W → Bool) → Option W → M → Option (W × Progress F)
    unfolding train_model
    resume cfg fits checkpoint fresh = elim checkpoint [
      | none ↦ none
      | some state ↦ if fits state then some (state, train_model cfg fresh) else none
    ]
