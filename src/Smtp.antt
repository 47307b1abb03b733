-- ===== src/Smtp.antt =====
-- internal/smtp/client.go: building a message and sending it.
pub mod Message
pub mod Send
pub mod Delivery
pub mod Lines
pub mod Body
mod Tests
