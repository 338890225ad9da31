-- ===== src/Benchmark.antt =====
-- python/benchmark: the metrics of a benchmark run, and the simulated FCFS benchmark.
pub mod Metrics
pub mod Simulation
pub mod Shared
