-- ===== src/Predictor/Training/Epochs/Checkpoint.antt =====
-- python/predictor/trainer.py: what the weights in the checkpoint file are worth.
use ai_infrastructure_platfo.Prelude.{
  ℕ, zero, suc, ◌+◌, ◌≡◌, ◌≤◌, inl, inr, refl, ap, some, List, Bool-cases, arith,
}
use ai_infrastructure_platfo.Floats.{Floats}
use ai_infrastructure_platfo.Predictor.Training.{
  TrainMetrics, Progress, init, appended, improves, judge, train_from, train,
}
use ai_infrastructure_platfo.Predictor.Training.Epochs.{
  TrainConfig, Torch, eval_epoch, trained, measure, train_model,
}

module _ {F : Type 0} ⦃fl : Floats F⦄ where
  -- The best value is the loss of the best epoch, and the checkpoint is that of it.
  abbrev pub Kept : (ℕ → F) → Progress F → Type 0
  Kept loss p = (p.best_val ≡ some (loss p.best_epoch)) × (p.saved ≡ some p.best_epoch)

  judge-Kept :
      (loss : ℕ → F) (patience : ℕ) (p : Progress F) (m : TrainMetrics F)
      → m.val_loss ≡ loss m.epoch
      → Kept loss p
      → Kept loss (judge patience (appended p m) m).0
  unfolding judge appended
  judge-Kept loss patience p m e k = elim (Bool-cases (improves m.val_loss p.best_val)) [
    | inl lower ↦ rw (lower, judge) (ap some e, refl)
    | inr higher ↦ rw (higher, judge) k
  ]

  train_from-Kept :
      (measures : ℕ → TrainMetrics F) (patience left epoch : ℕ) (p : Progress F)
      → Kept (λ k. (measures k).val_loss) p
      → Kept (λ k. (measures k).val_loss) (train_from measures patience left epoch p)
  unfolding train_from
  train_from-Kept measures patience zero epoch p k = k
  train_from-Kept measures patience (suc left) epoch p k =
      let m = record (measures epoch) { epoch = epoch } in
      let once = judge-Kept (λ k. (measures k).val_loss) patience p m refl k in
      let later =
        train_from-Kept measures patience left (epoch + 1) (judge patience (appended p m) m).0
          once in
      elim (Bool-cases (judge patience (appended p m) m).1) [
        | inl stop ↦ rw (stop, train_from) once
        | inr go ↦ rw (go, train_from) later
      ]

  -- The first epoch always has a best value, that of infinity before it being beaten by every loss.
  train-Kept :
      (measures : ℕ → TrainMetrics F) (patience epochs : ℕ)
      → 1 ≤ epochs
      → Kept (λ k. (measures k).val_loss) (train measures patience epochs)
  unfolding train train_from init judge appended improves
  train-Kept measures patience zero run = ground arith
  train-Kept measures patience (suc n) run =
      train_from-Kept measures patience n 2
        (judge patience (appended init (record (measures 1) { epoch = 1 }))
          (record (measures 1) { epoch = 1 })).0
        (refl, refl)

module _ {F M B : Type 0} ⦃fl : Floats F⦄ (torch : Torch F M B) where
  -- A training of at least one epoch leaves a checkpoint, that of the best epoch, and the validation
  -- loss that it reports as the best is what the model of the checkpoint gets on the validation data.
  pub train_model-eval_epoch :
      (train_loader : ℕ → List B) (val_loader : List B) (cfg : TrainConfig F) (fresh : M)
      → 1 ≤ cfg.epochs
      → let p = train_model torch train_loader val_loader cfg fresh in
        (p.saved ≡ some p.best_epoch)
        × (p.best_val
            ≡ some
                (eval_epoch torch
                  (trained torch train_loader val_loader fresh p.best_epoch).0
                  val_loader).0)
  unfolding train_model measure
  train_model-eval_epoch train_loader val_loader cfg fresh run =
      let (best, saved) =
        train-Kept (measure torch train_loader val_loader fresh) cfg.patience cfg.epochs run in
      (saved, best)
