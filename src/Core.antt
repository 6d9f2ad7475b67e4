-- ===== src/Core.antt =====
-- packages/core/src: the pure rules that the api and the worker share.
pub mod Autonomy
pub mod Transitions
pub mod Evidence
pub mod Redraft
pub mod Billing
pub mod Settings
mod Tests
