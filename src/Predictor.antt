-- ===== src/Predictor.antt =====
-- python/predictor: features, datasets, training and predictions.
pub mod Result
pub mod Features
pub mod Extractor
pub mod Model
pub mod Inference
pub mod Dataset
pub mod Training
