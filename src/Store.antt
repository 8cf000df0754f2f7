-- ===== src/Store.antt =====
-- The database that a transaction of the payment services works on: its tables by primary key.
mod Enums
mod Records
unfoldable pub use Enums.*
unfoldable pub use Records.*
use pay.Shared.{ℕ, List, Table}
use pay.Ledger.{Books}

pub record Db : Type 0 where
  pub books : Books
  pub sims : Table SimWallet
  pub transfers : Table Transfer
  pub attempts : Table TransferAttempt
  pub jobs : Table DeviceJob
  pub devices : Table Device
  pub groups : Table DeviceGroup
  pub settlements : Table SettlementRequest
  pub sweep_rules : Table SweepRule
  pub sweeps : Table SweepExecution
  -- the policies of the groups, by the group
  pub group_policies : Table MerchantGroupPolicy
  pub treasury : Table TreasuryWallet
  pub receipts : Table SmsReceipt
  pub deposits : Table DepositIntent
  pub merchant_configs : Table MerchantConfig
  pub snapshots : List BalanceSnapshot
  pub outbox : List OutboxEvent
  pub audit : List AuditLog
  -- the inbox rows of `device_job_status`, and those of `device_sms`
  pub inbox : List InboxEvent
  pub sms_inbox : List InboxEvent
  -- the source of generated ids: none below it is handed out again
  pub next_id : ℕ
