-- ===== src/Outbound.antt =====
-- apps/server/src/queue/outbound-worker.ts: the delivery of a message to the servers of its recipients.
pub mod Addresses
pub mod Framing
pub mod Talk
pub mod Relay
pub mod Multipart
pub mod Worker
mod Tests
