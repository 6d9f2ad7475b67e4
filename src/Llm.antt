-- ===== src/Llm.antt =====
-- packages/llm/src: the calls of model providers.
pub mod Limiter
mod Tests
