-- ===== src/Tests.antt =====
-- Runs of the models on concrete inputs, by the part of the program that they run.
mod Setup
mod QueueTests
mod SchedulerTests
mod GatewayTests
mod PredictorTests
mod VllmTests
mod BenchmarkTests
mod DatasetTests
mod SjfTests
mod PatchTests
mod ReportsTests
mod PipelineTests
