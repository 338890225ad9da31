-- ===== src/Predictor/Training/Stopping.antt =====
-- python/predictor/trainer.py: the best epoch, the checkpoint and the early stop.
use ai_infrastructure_platfo.Prelude.{
  ℕ, zero, suc, ◌+◌, ◌≤◌, ◌≡◌, refl, ap, Bool, true, false, Option, none, some, List, [], ◌∷◌, ◌++◌,
  arith, length, length-append, Bool-cases, inl, inr, ◌⊎◌,
}
use ai_infrastructure_platfo.Prelude.Counts.{count_if, NoneOf, NoneOf-imp, count_if-append}
use ai_infrastructure_platfo.Floats.{Floats, FloatOrder}
use ai_infrastructure_platfo.Predictor.Training.{
  TrainMetrics, Progress, init, appended, improves, judge, train_from, train,
}

module _ {F : Type 0} ⦃fl : Floats F⦄ where
  -- Whether an epoch's validation loss is below a value, and whether it is the best epoch's.
  abbrev pub below : F → TrainMetrics F → Bool
  below best m = fl.lt m.val_loss best

  abbrev IsBestAt : Option F → List (TrainMetrics F) → Option ℕ → ℕ → Type 0
  IsBestAt none history saved best_epoch = (history ≡ []) × (saved ≡ none) × (best_epoch ≡ 0)
  IsBestAt (some best) history saved best_epoch =
      NoneOf (below best) history × (saved ≡ some best_epoch)

  -- No epoch of the history has a validation loss below the best value, and the checkpoint is that
  -- of the best epoch; without a best value there was no epoch and there is no checkpoint.
  abbrev pub IsBest : Progress F → Type 0
  IsBest p = IsBestAt p.best_val p.history p.saved p.best_epoch

  module _ (fo : FloatOrder fl) where
    below_append :
        (best : F) (h : List (TrainMetrics F)) (m : TrainMetrics F)
        → NoneOf (below best) h
        → fl.lt m.val_loss best ≡ false
        → NoneOf (below best) (h ++ m ∷ [])
    below_append best h m n k = ground (arith, count_if-append (below best) h (m ∷ []))

    judge-IsBest :
        (patience : ℕ) (best : Option F) (p : Progress F) (m : TrainMetrics F)
        → p.best_val ≡ best
        → IsBestAt best p.history p.saved p.best_epoch
        → IsBest (judge patience (appended p m) m).0
    unfolding judge appended improves
    judge-IsBest patience none p m e b =
        rw (e, judge)
          (
            below_append m.val_loss p.history m (ap (count_if (below m.val_loss)) b.0)
                (fo.lt_irrefl m.val_loss),
            refl,
          )
    judge-IsBest patience (some best) p m e b = elim (Bool-cases (fl.lt m.val_loss best)) [
      | inl lower ↦
          rw (e, lower, judge)
            (
              below_append m.val_loss p.history m
                  (NoneOf-imp (below best) (below m.val_loss) p.history
                    (λ x h. fo.lt_trans x.val_loss m.val_loss best h lower) b.0)
                  (fo.lt_irrefl m.val_loss),
              refl,
            )
      | inr higher ↦ rw (e, higher, judge) (below_append best p.history m b.0 higher, b.1)
    ]

    train_from-IsBest :
        (measure : ℕ → TrainMetrics F) (patience left epoch : ℕ) (p : Progress F)
        → IsBest p
        → IsBest (train_from measure patience left epoch p)
    unfolding train_from
    train_from-IsBest measure patience zero epoch p b = b
    train_from-IsBest measure patience (suc left) epoch p b =
        let m = record (measure epoch) { epoch = epoch } in
        let once = judge-IsBest patience p.best_val p m refl b in
        let later =
          train_from-IsBest measure patience left (epoch + 1) (judge patience (appended p m) m).0
            once in
        elim (Bool-cases (judge patience (appended p m) m).1) [
          | inl stop ↦ rw (stop, train_from) once
          | inr go ↦ rw (go, train_from) later
        ]

    -- After the training the best value is the least validation loss of the epochs that ran, and the
    -- checkpoint is that of the best epoch; if no epoch ran there is neither.
    pub train-IsBest :
        (measure : ℕ → TrainMetrics F) (patience epochs : ℕ)
        → IsBest (train measure patience epochs)
    unfolding train init
    train-IsBest measure patience epochs =
        train_from-IsBest measure patience epochs 1 init (refl, refl, refl)

  -- Before the epoch `epoch`: one entry for each epoch, and the counter counts those since the best.
  abbrev Counted : ℕ → Progress F → Type 0
  Counted epoch p =
      (length p.history + 1 ≡ epoch) × (p.best_epoch + p.patience_counter ≡ length p.history)

  judge-Counted :
      (patience epoch : ℕ) (p : Progress F) (m : TrainMetrics F)
      → m.epoch ≡ epoch
      → Counted epoch p
      → Counted (epoch + 1) (judge patience (appended p m) m).0
        × ((judge patience (appended p m) m).1 ≡ true
            → patience ≤ (judge patience (appended p m) m).0.patience_counter)
  unfolding judge appended
  judge-Counted patience epoch p m e c = ground (arith, length-append p.history (m ∷ []))

  train_from-Counted :
      (measure : ℕ → TrainMetrics F) (patience left epoch : ℕ) (p : Progress F)
      → Counted epoch p
      → (length (train_from measure patience left epoch p).history + 1 ≤ epoch + left)
        × ((length (train_from measure patience left epoch p).history + 1 ≡ epoch + left)
            ⊎ ((train_from measure patience left epoch p).best_epoch + patience
                ≤ length (train_from measure patience left epoch p).history))
  unfolding train_from
  train_from-Counted measure patience zero epoch p c = (omega arith, inl (omega arith))
  train_from-Counted measure patience (suc left) epoch p c =
      let m = record (measure epoch) { epoch = epoch } in
      let once = judge-Counted patience epoch p m refl c in
      let later =
        train_from-Counted measure patience left (epoch + 1) (judge patience (appended p m) m).0
          once.0 in
      elim (Bool-cases (judge patience (appended p m) m).1) [
        | inl stop ↦
            let tired = once.1 stop in rw (stop, train_from) (omega arith, inr (omega arith))
        | inr go ↦ rw (go, train_from) (omega arith)
      ]

  -- The training runs at most `epochs` epochs, and ends before them only when the last `patience`
  -- epochs brought no better value.
  pub train_stops :
      (measure : ℕ → TrainMetrics F) (patience epochs : ℕ)
      → (length (train measure patience epochs).history ≤ epochs)
        × ((length (train measure patience epochs).history ≡ epochs)
            ⊎ ((train measure patience epochs).best_epoch + patience
                ≤ length (train measure patience epochs).history))
  unfolding train init
  train_stops measure patience epochs =
      let c = train_from-Counted measure patience epochs 1 init (omega arith, omega arith) in
      omega arith
