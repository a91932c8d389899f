-- ===== src/Rostest.antt =====
-- internal/rostest: the stand-in RouterOS device that the driver is tried against.
pub mod Canned
pub mod Server
pub mod Account
pub mod Whole
