-- ===== src/Predictor/Extractor.antt =====
-- python/predictor/feature_extractor.py: the extraction of features from a prompt.
mod Counting
mod Values
pub mod Ranges
mod Messages
unfoldable pub use Counting.*
unfoldable pub use Values.*
