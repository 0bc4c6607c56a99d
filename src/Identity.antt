-- ===== src/Identity.antt =====
-- Who may use the daemon (src/identity.ts and src/auth.ts): the device login, the sign-in limiter,
-- sessions, API keys, the session cookie and the guard of the routes.
pub mod Device
mod Samples
mod Tests
mod Entry
pub mod Limiter
pub mod Sessions
pub mod Keys
pub mod Cookie
pub mod Guard
pub mod SignIn
