-- ===== src/Auth.antt =====
-- src/auth.c: hashes, access tokens, API keys and entitlements.
pub mod Sha256
pub mod Scope
pub mod Token
pub mod Compare
pub mod Fields
pub mod Keys
pub mod Issue
mod Tests
