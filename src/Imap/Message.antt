-- ===== src/Imap/Message.antt =====
-- apps/server/src/imap/commands/message.ts.
pub mod Flags
pub mod SequenceSet
pub mod Store
pub mod Fetch
pub mod Search
pub mod Replies
pub mod Actions
pub mod Handler
