-- ===== src/Leases.antt =====
-- src/deepkeel/leases.py: the lease that one worker holds on a run.
-- The clock, the token of `uuid4` and the lengths of time are arguments. An operation writes nothing
-- before it raises, so it returns its new store only where it does not raise.
pub mod Store
pub mod Histories
pub mod Consistency
pub mod Exclusion
pub mod Takeover
pub mod Guard
mod Examples
mod GuardExamples
