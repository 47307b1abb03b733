-- ===== src/Imap.antt =====
-- internal/imap/client.go: connecting, listing a mailbox, reading a message and its flags.
pub mod Client
pub mod Listing
pub mod Mime
pub mod Reading
pub mod Safety
pub mod Window
mod Tests
