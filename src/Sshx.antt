-- ===== src/Sshx.antt =====
-- internal/sshx/sshx.go: the SSH connection that the drivers share.
pub mod Ssh
pub mod Dial
pub mod Stages
pub mod Closed
