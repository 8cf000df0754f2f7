-- ===== src/Ledger.antt =====
-- The double-entry ledger, apps/api/src/ledger/ledger.service.ts.
mod Accounts
mod Journal
mod Operations
mod Posted
pub mod Effects
pub mod TrialBalance
pub mod Totality
pub mod Written
pub mod Repeat
pub mod Adjustment
pub mod Settlement
pub mod LateSuccess
mod Tests
pub mod Commands
unfoldable pub use Accounts.*
unfoldable pub use Journal.*
unfoldable pub use Operations.*
