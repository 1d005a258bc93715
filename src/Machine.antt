-- ===== src/Machine.antt =====
-- The game state machine: its declaration (core/machine.py) and the engine that runs it
-- (realmtools/machine.py).
pub mod Decl
pub mod State
pub mod Pointer
pub mod Guards
pub mod Effects
pub mod Rows
pub mod Act
pub mod View
pub mod Replay
pub mod Validate
pub mod Authority
pub mod Sound
pub mod Progress
pub mod Wakes
pub mod Gates
pub mod Granted
pub mod Recovery
pub mod Invariant
pub mod Preserve
pub mod Reachable
pub mod Writes
pub mod Secrecy
pub mod Samples
mod Tests
