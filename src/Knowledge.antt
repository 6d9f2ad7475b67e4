-- ===== src/Knowledge.antt =====
-- packages/knowledge/src: crawling, embedding and retrieval.
pub mod Frontier
pub mod Batching
mod Tests
