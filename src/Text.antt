-- ===== src/Text.antt =====
-- Go's strings, which are sequences of bytes, and the functions of the package `strings` that the
-- program calls.
mod Basic
pub mod Unicode
mod Search
mod Case
mod Space
mod Lines
mod Number
unfoldable pub use Basic.*
unfoldable pub use Search.*
unfoldable pub use Case.*
unfoldable pub use Space.*
unfoldable pub use Lines.*
unfoldable pub use Number.*
