-- ===== src/Helpers.antt =====
-- The small programs of scripts that decide something before they copy bytes.
pub mod Secret
mod Tests
