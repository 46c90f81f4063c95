-- ===== src/Budgets.antt =====
-- src/deepkeel/budget.py: what a run has used of its budgets, and what it may still use.
pub mod Ledger
pub mod Effects
pub mod Limits
pub mod Decisions
mod Examples
