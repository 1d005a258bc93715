-- ===== src/Params.antt =====
-- Scenario parameters: the placeholders in a scenario's prose and their values
-- (src/bearpit/core/params.py).
pub mod Token
pub mod Placeholder
pub mod Prose
pub mod Scan
pub mod Values
pub mod Reading
pub mod Unique
pub mod Declared
pub mod Choices
mod Tests
