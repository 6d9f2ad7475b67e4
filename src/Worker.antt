-- ===== src/Worker.antt =====
-- apps/worker/src: the jobs' protocols over the tables.
pub mod Claim
pub mod Gate
mod Tests
pub mod Outcomes
pub mod Send
