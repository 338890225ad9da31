-- ===== src/Gateway.antt =====
-- python/scheduler/gateway.py: the gateway between HTTP clients and the vLLM server. The scheduler is
-- the interface `Scheduling`; the server's answers and the clock are arguments. A method that
-- awaits is split where it awaits.
mod State
pub mod Forward
pub mod Clients
pub mod Dispatch
unfoldable pub use State.*
