-- ===== src/Crypto.antt =====
-- internal/crypto/envelope.go: envelope encryption with AES-256-GCM. `Gcm` is the cipher that the
-- Go distribution provides, `Rand` the random source, `Envelope` the code of the file.
pub mod Gcm
pub mod Rand
pub mod Envelope
pub mod Blob
pub mod RoundTrip
pub mod Tests
