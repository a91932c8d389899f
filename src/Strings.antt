-- ===== src/Strings.antt =====
-- Go's strings as lists of bytes, and the functions of package strings that the program calls.
-- They belong to Go's standard library and are written out here as it documents them.
pub mod Basic
pub mod Trim
pub mod Replace
pub mod Lines
pub mod Space
pub mod Order
pub mod Path
pub mod Clean
pub mod Search
pub mod Number
pub mod Format
pub mod Decimal
