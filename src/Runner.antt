-- ===== src/Runner.antt =====
-- internal/runner/runner.go: scheduling, storing results and updating metrics.
pub mod Types
pub mod Names
pub mod Message
pub mod Table
pub mod Backup
pub mod Run
pub mod Reload
pub mod Late
pub mod Due
pub mod Slots
