-- ===== src/ModelHealth.antt =====
-- src/deepkeel/model_health.py: the circuit breaker of a model binding.
pub mod Store
pub mod Breaker
pub mod Circuit
mod Examples
