-- ===== src/Queue.antt =====
-- python/scheduler/priority_queue.py: the priority queue with cancellation and statistics.
-- `F` is `float`, `P` the payload and a request id a number, of which only equality is used. The
-- clock is an argument of each operation. The methods hold the queue's lock, so each is one step;
-- `dequeue` gives the lock up where it waits, which splits it into the rounds of `dequeue`.
mod Basic
pub mod Runs
pub mod Ledger
pub mod Order
pub mod Cancel
pub mod Stale
pub mod Weak
pub mod Windows
unfoldable pub use Basic.*
