-- ===== src/Machine/Recovery.antt =====
-- Replay against the live engine (src/bearpit/realmtools/machine.py, `replay_steps` and
-- `_escrow_that_held` against `act`).
pub mod Escrow
pub mod Rounds
pub mod Steps
