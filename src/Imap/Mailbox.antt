-- ===== src/Imap/Mailbox.antt =====
-- apps/server/src/imap/commands/mailbox.ts.
pub mod Pattern
pub mod Store
pub mod Commands
pub mod Handler
pub mod Effects
