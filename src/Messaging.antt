-- ===== src/Messaging.antt =====
-- libs/messaging/src/pub-sub: publishing to JetStream and consuming from it.
pub mod Publisher
pub mod Consumer
pub mod Streams
