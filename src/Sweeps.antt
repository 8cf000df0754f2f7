-- ===== src/Sweeps.antt =====
-- Sweeps, apps/api/src/sweeps/sweeps.service.ts: rules that move the surplus of SIMs to a wallet of
-- the platform or of the merchant.
pub mod Checks
pub mod Rules
pub mod Execution
pub mod Runs
pub mod Bounds
pub mod Sent
pub mod Safety
pub mod Failure
mod Tests
