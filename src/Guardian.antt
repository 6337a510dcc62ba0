-- ===== src/Guardian.antt =====
-- scripts/macos/bootmux-network-guardian.py, the recovery daemon of a Mac's network.
pub mod Data
pub mod Host
pub mod Address
pub mod Identity
pub mod Emits
pub mod Plan
pub mod Execute
pub mod Baseline
pub mod Store
pub mod SystemHost
pub mod Uninstall
pub mod Verify
pub mod FakeHost
pub mod Repair
pub mod Daemon
pub mod Commands
mod Tests
