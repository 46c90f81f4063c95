-- ===== src/Planning.antt =====
-- src/deepkeel/planning: the plans that a model proposes, and how the runtime takes them up.
pub mod Contracts
pub mod Scheduler
pub mod Selection
pub mod Validator
pub mod Revision
pub mod Dependencies
pub mod Validation
pub mod Vetting
mod Examples
mod VettingExamples
