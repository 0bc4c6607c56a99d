-- ===== src/Router.antt =====
-- The router (src/router).
pub mod Lane
pub mod Wire
pub mod Table
pub mod Domains
mod Tests
pub mod Attach
