-- ===== src/Project.antt =====
-- A project as it is authored: its roster, its rules and the checks that refuse one that could
-- not run (src/bearpit/core/schema.py), and what the launch makes of it
-- (src/bearpit/gatekeeper/machine_record.py).
pub mod Spec
pub mod Agents
pub mod Checks
pub mod Launch
pub mod Roles
pub mod Verdict
mod Tests
