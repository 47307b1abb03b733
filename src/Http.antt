-- ===== src/Http.antt =====
-- internal/http: the handlers. A handler is a function of the request and of the state that it
-- reads and writes; it returns the response and the new state.
pub mod Message
pub mod Token
pub mod Html
pub mod Auth
pub mod Password
pub mod Server
pub mod Send
pub mod Mailbox
pub mod Reply
pub mod Accounts
pub mod Markup
pub mod Routes
mod World
mod Tests
pub mod Settings
pub mod Compose
