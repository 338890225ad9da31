-- ===== src/Predictor/Model/Bounds.antt =====
-- python/predictor/model.py: the widths of the layers and the range of predictions.
use ai_infrastructure_platfo.Prelude.{◌≡◌, sym, true, some, List, arith}
use ai_infrastructure_platfo.Floats.{Floats, FloatOrder, truthy}
use ai_infrastructure_platfo.Floats.Laws.{Le}
use ai_infrastructure_platfo.Predictor.Features.{num_features}
use ai_infrastructure_platfo.Predictor.Model.{
  ModelConfig, net_of, width_after, net_width, clamp, forward,
}

module _ {F : Type 0} ⦃fl : Floats F⦄ (fo : FloatOrder fl) where
  clamp-range :
      (low high out : F) → Le low high → Le low (clamp low high out) × Le (clamp low high out) high
  unfolding clamp
  clamp-range low high out h =
      ground (arith, fo.lt_irrefl low, fo.lt_irrefl high, fo.lt_trans out low out)

  net_width-one : (cfg : ModelConfig F) → net_width (net_of cfg) cfg.input_dim ≡ some 1
  unfolding net_width net_of width_after
  net_width-one cfg = ground arith

  -- The network takes exactly the features and gives one number, and with bounds in order every
  -- prediction lies between them; so it is not zero, which the scheduler takes for no prediction, if
  -- the lower bound is above zero.
  pub forward-range :
      (net : List F → F) (cfg : ModelConfig F) (x : List F)
      → cfg.input_dim ≡ num_features
      → Le cfg.output_min cfg.output_max
      → fl.lt (fl.lit 0 0) cfg.output_min ≡ true
      → (net_width (net_of cfg) num_features ≡ some 1)
        × Le cfg.output_min (forward net cfg x)
        × Le (forward net cfg x) cfg.output_max
        × (truthy (forward net cfg x) ≡ true)
  unfolding forward
  forward-range net cfg x size order above =
      let out : F = clamp cfg.output_min cfg.output_max (net x) in
      let range = clamp-range cfg.output_min cfg.output_max (net x) order in
      (
        rw (sym size) (net_width-one cfg),
        range.0,
        range.1,
        ground (arith, range.0, fo.eq_iff out (fl.lit 0 0)),
      )
