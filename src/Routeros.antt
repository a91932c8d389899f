-- ===== src/Routeros.antt =====
-- internal/routeros: the driver for MikroTik devices, over the SSH CLI.
pub mod Export
pub mod Metadata
pub mod Fetch
pub mod Stable
