-- ===== src/Grants.antt =====
-- The tools that agents are granted (src/bearpit/core/tools.py).
pub mod Registry
pub mod Manifest
pub mod Problems
pub mod Kept
pub mod Usable
mod Tests
