-- ===== src/Protocol.antt =====
-- The requests and responses of the remote helper protocol (pkg/protocol/git).
pub mod Commands
pub mod Capabilities
pub mod Options
pub mod Lists
pub mod Push
pub mod Fetch
pub mod Words
pub mod RoundTrip
