-- ===== src/Auth.antt =====
-- apps/server/src/auth.rs: the administrator's password, the login limit, the sessions and their
-- cookies, and the check of each request.
pub mod RateLimit
mod Sessions
pub mod Revocation
pub mod Kept
pub mod Login
pub mod Cookie
mod SessionTests
mod RateLimitTests
