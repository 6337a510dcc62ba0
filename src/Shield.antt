-- ===== src/Shield.antt =====
-- scripts/macos/bootmux-attach-shield.py, which isolates a Mac's network for one session.
pub mod Redact
pub mod Parse
pub mod Host
pub mod Baseline
pub mod World
pub mod Journal
pub mod Fingerprint
pub mod Location
pub mod Quarantine
pub mod Recovery
pub mod Session
pub mod Answers
pub mod Arm
pub mod Commands
pub mod Daemon
pub mod Tests
pub mod Saved
