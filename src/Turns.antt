-- ===== src/Turns.antt =====
-- The turn manager (src/bearpit/warden/turns.py): who has the floor, and when it passes on.
pub mod State
pub mod Speech
pub mod Floor
pub mod Observe
pub mod Resolutions
pub mod Seats
pub mod Ticks
pub mod Removals
