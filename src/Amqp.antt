-- ===== src/Amqp.antt =====
-- src/amqp: what the SDK decides about a signed message before the application sees it.
pub mod Json
pub mod Hmac
pub mod Replay
pub mod Sample
pub mod Consumer
