-- ===== src/Webhooks.antt =====
-- Webhooks, apps/api/src/webhooks/webhooks.service.ts.
mod Delivery
mod Worker
pub mod Lease
pub mod Retry
mod Tests
unfoldable pub use Delivery.*
unfoldable pub use Worker.*
