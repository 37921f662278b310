-- ===== src/Server.antt =====
-- internal/server/server.go: the broker.
pub mod State
pub mod Gen
pub mod Ring
pub mod Refresh
pub mod Health
pub mod Route
pub mod Migrate
pub mod Access
pub mod GetCred
pub mod Offer
pub mod Admin
pub mod Keeps
pub mod Calls
pub mod Examples
