-- ===== src/Api.antt =====
-- apps/api/src: the owner's actions.
pub mod Drafts
