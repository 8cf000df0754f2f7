-- ===== src/Withdrawals.antt =====
-- Withdrawals, apps/api/src/withdrawals/withdrawals.service.ts.
mod Funds
mod Simulator
mod Queue
mod Staff
mod Resolve
pub mod Frames
pub mod Releases
pub mod Resolution
pub mod Manual
pub mod Queueing
mod Tests
mod QueueTests
unfoldable pub use Funds.*
unfoldable pub use Simulator.*
unfoldable pub use Queue.*
unfoldable pub use Staff.*
unfoldable pub use Resolve.*
