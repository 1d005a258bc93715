-- ===== src/Service.antt =====
-- The service that holds one live machine per realm and writes the chronicle
-- (src/bearpit/realmtools/machine_service.py, src/bearpit/chronicle/safety.py and the parts of
-- src/bearpit/chronicle/chronicle.py that it uses).
pub mod Safety
pub mod Storable
pub mod Chronicle
pub mod Load
pub mod Escrows
pub mod Calls
pub mod Paging
pub mod Pages
pub mod Append
pub mod Faithful
pub mod Refusals
pub mod Operations
mod Tests
