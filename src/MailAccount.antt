-- ===== src/MailAccount.antt =====
-- internal/mailaccount/store.go over the schema of internal/db/migrations.
pub mod Schema
pub mod Conn
pub mod Store
pub mod Spec
pub mod Refine
pub mod Local
pub mod Isolation
pub mod Save
pub mod Refusals
pub mod Identifier
pub mod Summaries
mod Tests
