-- ===== src/Junostest.antt =====
-- internal/junostest: the stand-in Junos device that the driver is tried against.
pub mod Canned
pub mod Server
pub mod Netconf
pub mod Message
pub mod Reading
