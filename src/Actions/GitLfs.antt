-- ===== src/Actions/GitLfs.antt =====
-- git-lfs-remote-oci (internal/actions/run_git_lfs.go): the agent that git-lfs starts to move the
-- files of one upload or download.
--
-- A progress goroutine writes a message for each tick of its ticker; the ticker sends nothing, and
-- never ends, if it is not started. What it sends, before the model's call returns and after, is a
-- parameter.
pub mod State
pub mod Setup
pub mod Transfers
pub mod Serve
pub mod Unread
pub mod Ends
pub mod Uploads
pub mod Downloads
pub mod Waits
pub mod Present
