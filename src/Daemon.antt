-- ===== src/Daemon.antt =====
-- main.go and internal/httpapi: the daemon around the runner.
pub mod Main
pub mod Reloads
pub mod Pass
pub mod Mux
pub mod Http
pub mod Routes
pub mod Life
pub mod Answers
pub mod MetricsFile
pub mod Start
pub mod Print
pub mod Listen
