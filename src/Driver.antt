-- ===== src/Driver.antt =====
-- What the drivers of internal/junos and internal/routeros share: the loop over the formats.
pub mod Loop
pub mod Blank
