-- ===== src/Runner.antt =====
-- scripts/macos/bootmux-safe-flash-runner.py, the one-shot runner that flashes a bridge.
pub mod Data
pub mod Ports
pub mod Flash
pub mod Shield
pub mod Steps
pub mod Write
pub mod Run
mod Tests
