-- ===== src/Settlements.antt =====
-- Settlements of merchants, apps/api/src/settlements/settlements.service.ts.
mod Review
pub mod Dispatch
mod Tests
unfoldable pub use Review.*
