-- ===== src/Sms.antt =====
-- apps/api/src/sms/sms-ingestion.service.ts: what a handset's copy of a provider message does.
mod Rules
mod Wallet
mod Balance
mod Incoming
mod Outgoing
mod Ingest
mod Tests
mod IngestTests
pub mod Frames
pub mod Amounts
pub mod Settling
pub mod Payouts
pub mod Deposited
pub mod Snapshot
pub mod Inbox
pub mod Once
pub mod Copies
unfoldable pub use Rules.*
unfoldable pub use Wallet.*
unfoldable pub use Balance.*
unfoldable pub use Incoming.*
unfoldable pub use Outgoing.*
unfoldable pub use Ingest.*
