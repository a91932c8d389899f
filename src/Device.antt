-- ===== src/Device.antt =====
-- internal/device/device.go: what a fetch returns, staged errors, and the post-processing that
-- every driver shares.
pub mod Result
pub mod Sanitize
pub mod Commented
pub mod Header
