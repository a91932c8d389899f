-- ===== src/Junos.antt =====
-- internal/junos: the driver for Junos devices, over the SSH CLI or NETCONF.
pub mod Netconf
pub mod Framing
pub mod Delivery
pub mod Xml
pub mod Element
pub mod Metadata
pub mod Cli
pub mod Fetch
pub mod Newest
pub mod Session
pub mod Rpc
pub mod Exchange
