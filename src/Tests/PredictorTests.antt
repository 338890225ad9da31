-- ===== src/Tests/PredictorTests.antt =====
-- python/predictor: a feature vector, a prompt, three backends, the network and a short training.
use ai_infrastructure_platfo.Prelude.{
  ℕ, zero, suc, ◌+◌, ◌-◌, get_or, ◌≡◌, ◌≤◌, ◌⊎◌, String, false, none, some, List, [], ◌∷◌, length,
  replicate, arith, nat_eq, string_eq,
}
use ai_infrastructure_platfo.Prelude.Int.{ℤ, pos}
use ai_infrastructure_platfo.Floats.Fixed.{fixed, fixed-FloatOrder}
use ai_infrastructure_platfo.Predictor.Features.{as_dict, from_dict}
use ai_infrastructure_platfo.Predictor.Training.{TrainMetrics, train}
use ai_infrastructure_platfo.Predictor.Training.Stopping.{IsBest, train-IsBest, train_stops}
use ai_infrastructure_platfo.Predictor.Training.Epochs.{
  Torch, default_config, train_model, trained, eval_epoch,
}
use ai_infrastructure_platfo.Predictor.Training.Epochs.Checkpoint.{train_model-eval_epoch}
use ai_infrastructure_platfo.Codes.{codes, name_eq}
use ai_infrastructure_platfo.Predictor.Extractor
use ai_infrastructure_platfo.Predictor.Extractor.{
  Unicode, Patterns, FeatureExtractor, ExtractionResult, token_count_of, sentence_count_of,
  vocabulary,
}
use ai_infrastructure_platfo.Predictor.Extractor.Ranges.{extract-from_dict}
use ai_infrastructure_platfo.Tests.Setup.{float}

abbrev zeros : List ℤ
zeros = replicate 40 (float 0)

-- No character is in a class, and no expression matches but the words, which are the whole prompt.
abbrev plain : Unicode
plain = record {
  isupper = λ c. false;
  islower = λ c. false;
  isspace = λ c. false;
  isdigit = λ c. false;
  lower = λ text. text;
  split = λ text. text ∷ [];
}

abbrev no_patterns : Patterns
no_patterns = record {
  words = λ text. text ∷ [];
  sentences = λ text. text ∷ [];
  urls = λ text. 0;
  markdown = λ text. false;
  code_fence = λ text. false;
  python = λ text. false;
  sql = λ text. false;
  json = λ text. false;
  xml = λ text. false;
  yaml = λ text. false;
  system = λ text. false;
  assistant = λ text. false;
  user = λ text. false;
  capitalized = λ text. 0;
  en = λ text. 0;
  es = λ text. 1;
  fr = λ text. 1;
  de = λ text. 0;
}

abbrev extractor : FeatureExtractor ℤ
extractor = record { enable_ner = false; enable_embedding = false; ner = none; embedder = none }

extract-from_dict_example :
    (r : ExtractionResult ℤ) × (Extractor.extract extractor plain no_patterns
        (float 1)
        (float 2)
        (codes "que?")
      ≡ some r)
    × ((d : List (String × ℤ)) × (as_dict r.features ≡ some d) × (from_dict d ≡ some r.features))
    × (1 ≤ token_count_of plain no_patterns (codes "que?"))
    × (1 ≤ sentence_count_of plain no_patterns (codes "que?"))
    × (length (vocabulary plain (no_patterns.words (codes "que?")))
        ≤ length (no_patterns.words (codes "que?")))
extract-from_dict_example =
    extract-from_dict extractor plain no_patterns (float 1) (float 2) (codes "que?")

-- The validation loss falls to the second epoch and rises after it.
abbrev val_loss_at : ℕ → ℕ
val_loss_at (suc zero) = 9
val_loss_at (suc (suc zero)) = 4
val_loss_at _ = 6

abbrev measure : ℕ → TrainMetrics ℤ
measure epoch = record {
  epoch = epoch;
  train_loss = float 1;
  val_loss = float (val_loss_at epoch);
  val_mae = float 1;
  val_rmse = float 1;
  val_r2 = float 0;
  lr = pos 1;
}

train-IsBest_example : IsBest (train measure 3 10)
train-IsBest_example = train-IsBest fixed-FloatOrder measure 3 10

train_stops_example :
    (length (train measure 3 10).history ≤ 10)
    × ((length (train measure 3 10).history ≡ 10)
        ⊎ ((train measure 3 10).best_epoch + 3 ≤ length (train measure 3 10).history))
train_stops_example = train_stops measure 3 10

-- A model that is the number of steps it took, with the distance from four steps as its loss.
abbrev loss_after : ℕ → ℕ
loss_after steps = (steps - 4) + (4 - steps)

abbrev torch : Torch ℤ ℕ ℕ
torch = record {
  train_batch = λ steps b. (suc steps, float (loss_after steps));
  eval_batch = λ steps b. (float (loss_after steps), float steps ∷ [], float 4 ∷ []);
  scheduler_step = λ steps. steps;
  lr_of = λ steps. pos 1;
  size = λ b. b;
  np_mean = λ xs. get_or xs 0 (float 0);
  np_sum = λ xs. get_or xs 0 (float 0);
}

train_model-eval_epoch_example :
    let p = train_model torch (λ epoch. 32 ∷ 7 ∷ []) (20 ∷ []) default_config 0 in
    (p.saved ≡ some p.best_epoch)
    × (p.best_val
        ≡ some
            (eval_epoch torch
              (trained torch (λ epoch. 32 ∷ 7 ∷ []) (20 ∷ []) 0 p.best_epoch).0
              (20 ∷ [])).0)
unfolding default_config
train_model-eval_epoch_example =
    train_model-eval_epoch torch (λ epoch. 32 ∷ 7 ∷ []) (20 ∷ []) default_config 0 (omega arith)
