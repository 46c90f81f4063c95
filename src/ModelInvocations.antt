-- ===== src/ModelInvocations.antt =====
-- src/deepkeel/model_invocations.py: who calls the provider for an invocation, and what came of it.
pub mod Store
pub mod Histories
pub mod Once
mod Examples
