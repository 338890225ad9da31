-- ===== src/Predictor/Result.antt =====
-- python/predictor/predictor.py: the result of a prediction.
use ai_infrastructure_platfo.Prelude.{List}
use ai_infrastructure_platfo.Floats.{Floats}

pub record PredictionResult (F : Type 0) : Type 0 where
  pub predicted_tokens : F
  pub features : List F
  pub feature_latency_ms : F
  pub predict_latency_ms : F

unfoldable total_latency_ms : {F : Type 0} ⦃fl : Floats F⦄ → PredictionResult F → F
total_latency_ms ⦃fl⦄ r = fl.add r.feature_latency_ms r.predict_latency_ms
