-- ===== src/Reports.antt =====
-- python/benchmark/compare.py and python/evaluation/generate_report.py: the texts of the
-- reports, as lists of code points.
pub mod Text
pub mod Comparison
pub mod Evaluation
pub mod Tables
pub mod Lines
