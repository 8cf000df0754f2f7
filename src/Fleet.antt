-- ===== src/Fleet.antt =====
-- The choice of a SIM, apps/api/src/fleet/sim-selection.service.ts.
pub mod Selection
mod Receiving
pub mod Choice
pub mod Maintenance
mod Tests
