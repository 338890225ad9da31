-- ===== src/Tests/PipelineTests.antt =====
-- python/training: a configuration, and PyTorch as a network that knows only the sizes of its
-- parameters and is not changed by the training.
use ai_infrastructure_platfo.Prelude.{
  ℕ, zero, suc, ◌-◌, ◌≡◌, refl, sym, ap, ◌∙◌, String, Bool, true, false, ◌&&◌, none, some, List, [],
  ◌∷◌, length, replicate, arith, string_eq,
}
use mathlib.Core.Option
use ai_infrastructure_platfo.Prelude.Int.{ℤ}
use ai_infrastructure_platfo.Codes.{codes, name_eq, same}
use ai_infrastructure_platfo.Floats.Fixed.{fixed}
use ai_infrastructure_platfo.Predictor.Model.{net_of}
use ai_infrastructure_platfo.Predictor.Dataset.{Sample, Candidate, DatasetSplits}
use ai_infrastructure_platfo.Predictor.Features.{feature_names, num_features}
use ai_infrastructure_platfo.Predictor.Inference.{onnx}
use ai_infrastructure_platfo.Predictor.Training.Epochs.{
  Torch, train_batches, train_epoch, state_after, trained,
}
use ai_infrastructure_platfo.Pipeline.{
  DatasetConfig, Config, ExportMetadata, train_splits, evaluate_splits, to_tensors, read_back,
}
use ai_infrastructure_platfo.Pipeline.Train.{
  Runtime, parameters, model_config, load_weights, export_model, train_main, feature_mean,
  feature_std,
}
use ai_infrastructure_platfo.Pipeline.Train.Width.{Strict, Reloads, train_main-hidden_dim}
use ai_infrastructure_platfo.Pipeline.Serving.{inputs, inputs-to_tensors}
use ai_infrastructure_platfo.Pipeline.Splits.{evaluate_splits-train_splits}
use ai_infrastructure_platfo.Tests.Setup.{float}

abbrev dataset : DatasetConfig ℤ
dataset = record {
  preset = "synthetic";
  max_samples = 3;
  train_ratio = fixed.lit 8 1;
  val_ratio = fixed.lit 1 1;
  seed = none;
}

abbrev extract : String → List ℤ
extract prompt = float 1 ∷ float 2 ∷ []

abbrev candidates : List (Candidate ℤ)
candidates =
    record { prompt = "What is AI-0?"; target = float 30 }
    ∷ record { prompt = "Explain AI-1 in detail."; target = float 90 }
    ∷ record { prompt = "What is AI-0?"; target = float 40 }
    ∷ record { prompt = "List 10 facts about AI-3."; target = float 70 }
    ∷ []

evaluate_splits-train_splits_example :
    evaluate_splits
      (λ text. text ∷ [])
      extract
      (λ n. replicate n 49)
      (λ prompt. prompt)
      []
      []
      candidates
      (λ seed n. 2 ∷ 0 ∷ 1 ∷ [])
      dataset
    ≡ train_splits
        (λ text. text ∷ [])
        extract
        (λ n. replicate n 49)
        (λ prompt. prompt)
        []
        []
        candidates
        (λ seed n. 2 ∷ 0 ∷ 1 ∷ [])
        dataset
evaluate_splits-train_splits_example =
    evaluate_splits-train_splits (λ text. text ∷ []) extract (λ n. replicate n 49)
      (λ prompt. prompt) [] [] candidates (λ seed n. 2 ∷ 0 ∷ 1 ∷ []) dataset refl refl refl

abbrev Sizes : Type 0
Sizes = List (List ℕ)

abbrev match_sizes : Sizes → Sizes → Bool
match_sizes [] [] = true
match_sizes (x ∷ xs) (y ∷ ys) = name_eq.beq x y && match_sizes xs ys
match_sizes xs ys = false

match_sizes-eq : (xs ys : Sizes) → match_sizes xs ys ≡ true → xs ≡ ys
match_sizes-eq [] [] e = refl
match_sizes-eq (x ∷ xs) (y ∷ ys) e = ground (arith, match_sizes-eq xs ys, name_eq.beq_iff x y)
match_sizes-eq [] (y ∷ ys) e = ground arith
match_sizes-eq (x ∷ xs) [] e = ground arith

match_sizes_self : (xs : Sizes) → match_sizes xs xs ≡ true
match_sizes_self [] = refl
match_sizes_self (x ∷ xs) = ground (arith, match_sizes_self xs, name_eq.beq_iff x x)

abbrev torch : Torch ℤ Sizes ℕ
torch = record {
  train_batch = λ sizes b. (sizes, float 3);
  eval_batch = λ sizes b. (float 2, float 9 ∷ [], float 7 ∷ []);
  scheduler_step = λ sizes. sizes;
  lr_of = λ sizes. float 0;
  size = λ b. b;
  np_mean = λ xs. float 2;
  np_sum = λ xs. float 4;
}

abbrev runtime : Runtime ℤ ℤ Sizes ℕ Sizes
runtime = record {
  torch = torch;
  fresh = parameters;
  state_dict = λ sizes. sizes;
  fits = λ net sizes. match_sizes sizes (parameters net);
  batches = λ batch_size shuffle epoch tensors. length tensors.0 ∷ [];
  mean_of = λ rows. float 1 ∷ float 2 ∷ [];
  std_of = λ rows. float 2 ∷ float 0 ∷ [];
  test_metrics = λ sizes test. ("test_mae", float 2) ∷ [];
}

train_batches_keeps :
    (batches : List ℕ) (sizes : Sizes) (n : ℕ) (total_loss : ℤ)
    → (train_batches torch sizes total_loss n batches).0 ≡ sizes
unfolding train_batches
train_batches_keeps [] sizes n total_loss = refl
train_batches_keeps (b ∷ batches) sizes n total_loss = train_batches_keeps batches sizes _ _

train_epoch_keeps : (sizes : Sizes) (batches : List ℕ) → (train_epoch torch sizes batches).0 ≡ sizes
unfolding train_epoch
train_epoch_keeps sizes batches = train_batches_keeps batches sizes 0 (fixed.lit 0 0)

state_after_keeps :
    (train_loader : ℕ → List ℕ) (val_loader : List ℕ) (sizes : Sizes) (k : ℕ)
    → state_after torch train_loader val_loader sizes k ≡ sizes
unfolding state_after
state_after_keeps train_loader val_loader sizes zero = refl
state_after_keeps train_loader val_loader sizes (suc k) =
    train_epoch_keeps (state_after torch train_loader val_loader sizes k) (train_loader (suc k))
    ∙ state_after_keeps train_loader val_loader sizes k

trained_keeps :
    (train_loader : ℕ → List ℕ) (val_loader : List ℕ) (sizes : Sizes) (k : ℕ)
    → (trained torch train_loader val_loader sizes k).0 ≡ sizes
unfolding trained
trained_keeps train_loader val_loader sizes k =
    train_epoch_keeps (state_after torch train_loader val_loader sizes (k - 1)) (train_loader k)
    ∙ state_after_keeps train_loader val_loader sizes (k - 1)

runtime-Strict : Strict (λ (x : ℤ). x) runtime
runtime-Strict a b sizes e f =
    sym (match_sizes-eq sizes (parameters a) e) ∙ match_sizes-eq sizes (parameters b) f

runtime-Reloads : Reloads (λ (x : ℤ). x) runtime
runtime-Reloads net train_loader val_loader k =
    ap (λ sizes. match_sizes sizes (parameters net))
      (trained_keeps train_loader val_loader (parameters net) k)
    ∙ match_sizes_self (parameters net)

-- The configuration of the repository, but for a hidden layer of 64.
abbrev narrow : Config ℤ
narrow = record {
  dataset = dataset;
  training = record {
    lr = fixed.lit 1 3;
    weight_decay = fixed.lit 1 4;
    batch_size = 256;
    epochs = 50;
    patience = 8;
    grad_clip = float 1;
    use_amp = true;
    use_compile = some false;
    seed = 42;
    device = some "auto";
  };
  hidden_dim = 64;
  dropout = fixed.lit 1 1;
  model_version = some "1.0.0";
}

abbrev sample : Sample ℤ
sample = record {
  prompt = "What is AI-0?";
  features = float 5 ∷ float 6 ∷ [];
  actual_output_tokens = float 30;
  metadata = [];
}

abbrev splits : DatasetSplits ℤ
splits = record { train = sample ∷ []; val = sample ∷ []; test = sample ∷ [] }

train_main-hidden_dim_example :
    train_main (λ x. x) runtime narrow splits none (float 9999) (codes "now") (λ text. text) none
    ≡ none
train_main-hidden_dim_example =
    train_main-hidden_dim (λ x. x) runtime runtime-Strict runtime-Reloads narrow splits none
      (float 9999) (codes "now") (λ text. text) none (omega arith) (omega arith)

-- The metadata that is written for a model of the default width.
abbrev wide : Config ℤ
wide = record narrow { hidden_dim = 128 }

abbrev written : ExportMetadata ℤ ℤ
written = record {
  model_version = "1.0.0";
  feature_names = feature_names;
  num_features = num_features;
  feature_mean = float 1 ∷ float 2 ∷ [];
  feature_std = float 2 ∷ float 0 ∷ [];
  hidden_dim = 128;
  dropout = fixed.lit 1 1;
  training_date = codes "now";
  git_sha = codes "unknown";
  metrics = [];
}

abbrev trained_sizes : Sizes
trained_sizes = parameters (net_of (model_config {F = ℤ} 128 (fixed.lit 1 1)))

written-exported :
    export_model
      (λ (x : ℤ). x)
      runtime
      (some trained_sizes)
      wide
      splits
      []
      (codes "now")
      (λ text. text)
      none
    ≡ some written
unfolding export_model load_weights parameters net_of model_config same
written-exported = refl

inputs-to_tensors_example :
    inputs (λ (x : ℤ). x) onnx (read_back written) (sample ∷ [])
    ≡ Option.map
        (λ t. t.0)
        (to_tensors
          (λ (x : ℤ). x)
          (sample ∷ [])
          (feature_mean (λ (x : ℤ). x) runtime splits)
          (feature_std (λ (x : ℤ). x) runtime splits))
inputs-to_tensors_example =
    inputs-to_tensors (λ (x : ℤ). x) runtime onnx (some trained_sizes) wide splits [] (codes "now")
      (λ text. text) none written sample [] written-exported (omega arith)
