-- ===== src/Oracle.antt =====
-- The read-only oracles of scripts/macos: what a capture or a look at the Mac says.
pub mod Usb
pub mod Serial
pub mod Physical
pub mod Selftest
mod Tests
