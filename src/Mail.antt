-- ===== src/Mail.antt =====
-- packages/mail/src: reading and answering a mailbox.
pub mod Threading
pub mod Store
pub mod Ingest
mod Tests
