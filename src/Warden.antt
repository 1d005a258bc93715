-- ===== src/Warden.antt =====
-- Watching a realm and concluding it (src/bearpit/warden/warden.py).
pub mod Conclude
pub mod Watch
pub mod Order
pub mod Success
pub mod Ending
pub mod Nudges
mod Tests
