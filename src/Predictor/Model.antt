-- ===== src/Predictor/Model.antt =====
-- python/predictor/model.py: the layers of the network, and the bounds of its output. The layers'
-- arithmetic is PyTorch's and an argument.
pub mod Bounds
use ai_infrastructure_platfo.Prelude.{
  ℕ, ◌/◌, Bool, true, false, Option, none, some, List, [], ◌∷◌, ◌==◌, if◌then◌else◌,
}
use ai_infrastructure_platfo.Floats.{Floats, fmin, fmax}
use ai_infrastructure_platfo.Predictor.Features.{num_features}

pub record ModelConfig (F : Type 0) : Type 0 where
  pub input_dim : ℕ
  pub hidden_dim : ℕ
  pub dropout : F
  pub output_min : F
  pub output_max : F

-- The modules of `self.net`.
pub data Module (F : Type 0) : Type 0 where
  linear : (size out : ℕ) → Module F
  layer_norm : (size : ℕ) → Module F
  relu : Module F
  dropout : (rate : F) → Module F

module _ {F : Type 0} where
  -- `OutputLengthMLP.__init__`
  unfoldable pub net_of : ModelConfig F → List (Module F)
  net_of cfg =
      linear cfg.input_dim cfg.hidden_dim
      ∷ layer_norm cfg.hidden_dim
      ∷ relu
      ∷ dropout cfg.dropout
      ∷ linear cfg.hidden_dim (cfg.hidden_dim / 2)
      ∷ layer_norm (cfg.hidden_dim / 2)
      ∷ relu
      ∷ dropout cfg.dropout
      ∷ linear (cfg.hidden_dim / 2) 1
      ∷ []

  -- The width of a module's output: `none` is the error of a wrong width.
  unfoldable pub width_after : Module F → ℕ → Option ℕ
  width_after (linear size out) n = if n == size then some out else none
  width_after (layer_norm size) n = if n == size then some n else none
  width_after relu n = some n
  width_after (dropout rate) n = some n

  unfoldable pub net_width : List (Module F) → ℕ → Option ℕ
  unfolding width_after
  net_width [] n = some n
  net_width (m ∷ net) n = elim (width_after m n) [ none ↦ none | some k ↦ net_width net k ]

module _ {F : Type 0} ⦃fl : Floats F⦄ where
  -- `ModelConfig()`
  unfoldable pub default_model : ModelConfig F
  default_model = record {
    input_dim = num_features;
    hidden_dim = 128;
    dropout = fl.lit 1 1;
    output_min = fl.lit 1 0;
    output_max = fl.lit 4096 0;
  }

  -- `torch.clamp(out, min=low, max=high)`
  unfoldable pub clamp : F → F → F → F
  clamp low high out = fmin (fmax out low) high

  -- `forward` in evaluation, with the function `net` that the layers compute.
  unfoldable pub forward : (List F → F) → ModelConfig F → List F → F
  unfolding clamp
  forward net cfg x = clamp cfg.output_min cfg.output_max (net x)
