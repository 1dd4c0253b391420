-- ===== src/Token.antt =====
-- src/token: the tokens of a session, and what the client keeps to check a token with.
pub mod Revocation
pub mod Session
pub mod Keys
pub mod Binding
pub mod Validation
pub mod Verify
