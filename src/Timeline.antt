-- ===== src/Timeline.antt =====
-- What a caller may see of a realm's past (src/bearpit/realmtools/timeline.py).
pub mod Changes
pub mod Build
pub mod Accounts
pub mod Entries
pub mod Explained
pub mod Moves
pub mod Shows
pub mod Compared
mod Tests
