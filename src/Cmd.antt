-- ===== src/Cmd.antt =====
-- The commands of git-remote-oci (internal/cmd).
pub mod Options
pub mod Lists
pub mod Compare
pub mod Push
pub mod Fetch
