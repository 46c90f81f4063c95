-- ===== src/StateStore.antt =====
-- src/deepkeel/state_store.py: the durable state of runs. `Status`, `Aggregate`, `Commit` and
-- `Queries` hold the definitions; the other children prove what they promise.
pub mod Status
pub mod Aggregate
pub mod Memory
pub mod Commit
pub mod Applied
pub mod Committed
pub mod Outcome
pub mod Entries
pub mod WellFormed
pub mod Histories
pub mod Atomicity
pub mod Replay
pub mod Fencing
pub mod Reload
pub mod Queries
mod Examples
