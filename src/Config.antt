-- ===== src/Config.antt =====
-- internal/config: the configuration, its defaults, and its validation.
pub mod Types
pub mod Host
pub mod Defaults
pub mod Key
pub mod Validate
pub mod Load
pub mod Vendors
pub mod Sound
pub mod Filled
pub mod Precedence
pub mod KeyForm
pub mod Env
pub mod Duration
