-- ===== src/Predictor/Training.antt =====
-- python/predictor/trainer.py: the epochs of `Trainer.train` with early stopping and checkpoints. The
-- losses of an epoch are an argument here; `Epochs` has them from the batches.
pub mod Stopping
pub mod Epochs
use ai_infrastructure_platfo.Prelude.{
  ℕ, zero, suc, ◌+◌, Bool, true, false, Option, none, some, List, [], ◌∷◌, ◌++◌, leb, if◌then◌else◌,
}
use ai_infrastructure_platfo.Floats.{Floats}

pub record TrainMetrics (F : Type 0) : Type 0 where
  pub epoch : ℕ
  pub train_loss : F
  pub val_loss : F
  pub val_mae : F
  pub val_rmse : F
  pub val_r2 : F
  pub lr : F

-- The variables of the loop. `best_val` is `none` for infinity, and `saved` is the epoch whose
-- weights the checkpoint file holds.
pub record Progress (F : Type 0) : Type 0 where
  pub best_val : Option F
  pub best_epoch : ℕ
  pub patience_counter : ℕ
  pub history : List (TrainMetrics F)
  pub saved : Option ℕ

module _ {F : Type 0} where
  unfoldable pub init : Progress F
  init = record {
    best_val = none;
    best_epoch = 0;
    patience_counter = 0;
    history = [];
    saved = none;
  }

  -- `history.append(metrics)`
  unfoldable pub appended : Progress F → TrainMetrics F → Progress F
  appended p m = record p { history = p.history ++ m ∷ [] }

module _ {F : Type 0} ⦃fl : Floats F⦄ where
  -- `val_loss < best_val`
  unfoldable pub improves : F → Option F → Bool
  improves val_loss none = true
  improves val_loss (some best) = fl.lt val_loss best

  -- The two branches at the end of an epoch, and whether the loop breaks.
  unfoldable pub judge : ℕ → Progress F → TrainMetrics F → Progress F × Bool
  unfolding improves
  judge patience p m =
      if improves m.val_loss p.best_val
      then (
        record p {
          best_val = some m.val_loss;
          best_epoch = m.epoch;
          patience_counter = 0;
          saved = some m.epoch;
        },
        false,
      )
      else (
        record p { patience_counter = p.patience_counter + 1 },
        leb patience (p.patience_counter + 1),
      )

  -- The loop over the epochs from `epoch` on, of which `left` are left.
  unfoldable pub train_from : (ℕ → TrainMetrics F) → ℕ → ℕ → ℕ → Progress F → Progress F
  unfolding judge appended
  train_from measure patience zero epoch p = p
  train_from measure patience (suc left) epoch p =
      let m = record (measure epoch) { epoch = epoch } in
      let (p', stop) = judge patience (appended p m) m in
      let later = train_from measure patience left (epoch + 1) p' in if stop then p' else later

  unfoldable pub train : (ℕ → TrainMetrics F) → ℕ → ℕ → Progress F
  unfolding train_from init
  train measure patience epochs = train_from measure patience epochs 1 init
