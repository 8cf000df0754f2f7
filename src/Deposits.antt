-- ===== src/Deposits.antt =====
-- Deposits, apps/api/src/deposits/deposits.service.ts, and the sweep that lets them run out.
pub mod Intents
pub mod Verification
pub mod Lapsing
pub mod Opening
mod Tests
