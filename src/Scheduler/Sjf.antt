-- ===== src/Scheduler/Sjf.antt =====
-- python/scheduler/sjf_scheduler.py: shortest job first, with aging and the fallback scheduler.
-- Requests are objects that the pending table, the queue and the caller share, and the code writes
-- to their fields: `objects` is that memory, and the tables hold references to it. The predictor
-- and the clock are arguments. Each method is one step; where `acquire` waits, the calls of other
-- tasks are those of the rounds of `dequeue`.
mod State
pub mod Loop
pub mod Fallback
pub mod Routing
pub mod Expiry
pub mod Compounding
unfoldable pub use State.*
