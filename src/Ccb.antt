-- ===== src/Ccb.antt =====
-- cmd/ccb: the client command, which keeps the credentials of one machine in step with the broker.
pub mod Gate
pub mod State
pub mod Local
pub mod Broker
pub mod Transport
pub mod Rotate
pub mod Identity
pub mod Sync
pub mod Watch
pub mod Log
pub mod Script
pub mod Statusline
pub mod Settings
pub mod Policy
pub mod Setup
pub mod Main
mod Examples
