-- ===== src/Tokens.antt =====
-- The bearer tokens of the realm tools (src/bearpit/realmtools/tokens.py).
pub mod Mint
pub mod Split
pub mod Verify
mod Tests
