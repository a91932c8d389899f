-- ===== src/Store.antt =====
-- internal/store/git.go: the repository of configurations.
pub mod Api
pub mod Commit
pub mod Placed
pub mod Outcome
pub mod Git
pub mod Auth
pub mod Open
pub mod Remote
pub mod Ahead
