-- ===== src/Db.antt =====
-- packages/db/src: the tables of one workspace and the writes that the api and the worker share.
pub mod Tables
pub mod Escalations
pub mod Metering
mod Tests
pub mod Drafts
pub mod Sends
