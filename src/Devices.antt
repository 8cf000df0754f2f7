-- ===== src/Devices.antt =====
-- Device jobs, apps/api/src/devices/device-jobs.service.ts.
mod Rules
mod Reports
mod Report
mod Handler
mod Handling
mod Expiry
mod Lease
mod Frames
mod Cases
mod Steps
pub mod Safety
pub mod Clock
pub mod Sweep
pub mod Fences
pub mod Fencing
pub mod Locking
mod Tests
mod LeaseTests
unfoldable pub use Rules.*
unfoldable pub use Reports.*
unfoldable pub use Report.*
unfoldable pub use Handler.*
unfoldable pub use Handling.*
unfoldable pub use Expiry.*
unfoldable pub use Lease.*
