-- ===== src/Inbound.antt =====
-- The way of a message that comes in: apps/server/src/smtp/inbound.ts reads its headers and
-- apps/server/src/queue/inbound-worker.ts stores it for its recipients.
pub mod Metadata
pub mod Encryptor
pub mod Store
pub mod Worker
mod Tests
