-- ===== src/Auth.antt =====
-- internal/auth: the session store and the exchange of an authorization code.
pub mod Session
pub mod Client
pub mod Exchange
