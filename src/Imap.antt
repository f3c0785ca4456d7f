-- ===== src/Imap.antt =====
-- apps/server/src/imap: the IMAP server.
pub mod Types
pub mod Parser
pub mod Database
pub mod Message
pub mod Mailbox
pub mod Idle
pub mod Server
pub mod Tests
