-- ===== src/Scheduler.antt =====
-- python/scheduler: the schedulers behind the gateway.
pub mod Base
pub mod Fcfs
pub mod Aging
pub mod Sjf
pub mod Oracle
