-- ===== src/Contracts.antt =====
-- What the API and its clients share, packages/contracts/src.
mod Money
mod Digits
mod Printing
pub mod RoundTrip
mod Tests
unfoldable pub use Money.*
