-- ===== src/Actions.antt =====
-- The actions behind the two commands (internal/actions).
pub mod Git
pub mod GitLfs
