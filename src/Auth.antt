-- ===== src/Auth.antt =====
-- backend/src/auth and backend/src/api/auth.ts: who may log in to the dashboard, and for how long.
pub mod Lockout
pub mod Session
pub mod Totp
pub mod Login
pub mod S3Auth
mod Tests
