-- ===== src/Store/Records.antt =====
-- The rows of apps/api/prisma/schema.prisma that the payment services read or write. A column that
-- is only stored and shown again (labels, callback URLs, metadata) is left out. A `Date` is its
-- milliseconds since the epoch, a `bigint` amount an integer, an id a number.
use Prim.Native.String.{String}
use pay.Shared.{ℕ, Bool, Option}
use pay.Shared.Int.{ℤ}
use pay.Domain.{Environment, FinancialContext}
use pay.Store.Enums.{
  TransferStatus, DeviceJobState, DeviceJobType, FinancialMode, SimStatus, DeviceStatus,
  SettlementStatus, SweepExecutionStatus, CoarseStatus, DepositStatus, SweepRuleStatus,
  SweepDestinationType, TreasuryWalletStatus,
}

pub data BalanceSource : Type 0 where
  simulator manual_evidence manual_evidence_predicted : BalanceSource
  transaction_sms transaction_sms_predicted balance_sms : BalanceSource

pub record SimWallet : Type 0 where
  pub phone_number : String
  pub device_id : ℕ
  pub status : SimStatus
  pub main_balance_minor : ℤ
  pub reserved_balance_minor : ℤ
  pub incentive_balance_minor : ℤ
  pub fuel_balance_minor : ℤ
  pub pocket_money_balance_minor : ℤ
  pub sent_today_minor : ℤ
  pub received_today_minor : ℤ
  pub financial_day : Option ℕ
  pub last_balance_at : Option ℕ
  pub last_balance_source : Option BalanceSource
  pub last_sms_at : Option ℕ
  pub next_fencing_token : ℕ

pub record Transfer : Type 0 where
  pub owner : FinancialContext
  pub sim_wallet_id : Option ℕ
  pub reference : String
  pub destination_phone : String
  pub expected_name : String
  pub resolved_name : Option String
  pub amount_minor : ℤ
  pub reserve_provider_fee_minor : ℤ
  pub gateway_fee_minor : ℤ
  pub provider_fee_minor : Option ℤ
  pub provider_vat_minor : Option ℤ
  pub financial_mode : FinancialMode
  pub operation_kind : DeviceJobType
  pub status : TransferStatus
  pub provider_transaction_id : Option String
  pub committed_at : Option ℕ
  pub estimated_completion_at : Option ℕ
  pub completed_at : Option ℕ

pub data AttemptOutcome : Type 0 where
  success failed unknown cancelled : AttemptOutcome

pub record TransferAttempt : Type 0 where
  pub transfer_id : ℕ
  pub attempt_number : ℕ
  pub fencing_token : ℕ
  pub device_job_id : Option ℕ
  pub started_at : Option ℕ
  pub committed_at : Option ℕ
  pub completed_at : Option ℕ
  pub outcome : Option AttemptOutcome
  pub error_code : Option String

-- `transfer_id`, `financial_operation_id` and `approved_provider_name` stand in its payload
pub record DeviceJob : Type 0 where
  pub type : DeviceJobType
  pub state : DeviceJobState
  pub priority : ℕ
  pub device_id : Option ℕ
  pub sim_wallet_id : ℕ
  pub profile_version : String
  pub transfer_id : Option ℕ
  pub financial_operation_id : Option ℕ
  pub approved_provider_name : Option String
  pub attempt : ℕ
  pub fencing_token : ℕ
  pub lease_owner : Option ℕ
  pub lease_expires_at : Option ℕ
  pub expires_at : ℕ
  pub created_at : ℕ
  pub started_at : Option ℕ
  pub committed_at : Option ℕ
  pub completed_at : Option ℕ
  pub error_code : Option String

pub record Device : Type 0 where
  pub group_id : ℕ
  pub status : DeviceStatus
  pub hardware_serial : Option String
  pub last_heartbeat_at : Option ℕ
  pub last_permissions_ok : Bool
  pub last_accessibility_ok : Bool
  pub active_ussd_job_id : Option ℕ

pub record DeviceGroup : Type 0 where
  pub code : String
  pub daily_limit_minor : ℤ
  pub wallet_ceiling_minor : ℤ
  pub safety_balance_minor : ℤ
  pub safety_headroom_minor : ℤ

pub record SettlementRequest : Type 0 where
  pub owner : FinancialContext
  pub transfer_id : Option ℕ
  pub reference : String
  pub destination_phone : String
  pub expected_name : String
  pub amount_minor : ℤ
  pub requested_by : ℕ
  pub reviewed_by : Option ℕ
  pub review_reason : Option String
  pub reviewed_at : Option ℕ
  pub status : SettlementStatus

pub record SweepRule : Type 0 where
  pub owner : FinancialContext
  pub group_id : ℕ
  pub name : String
  pub status : SweepRuleStatus
  pub destination_type : SweepDestinationType
  pub destination_phone : String
  pub destination_name : String
  pub high_water_minor : ℤ
  pub target_balance_minor : ℤ
  pub max_per_run_minor : ℤ
  pub minimum_interval_seconds : ℕ
  pub enabled : Bool
  pub version : ℕ
  pub proposed_by : ℕ
  pub approved_by : Option ℕ
  pub approval_reason : Option String
  pub approved_at : Option ℕ
  pub last_executed_at : Option ℕ

-- the parts of `sweep:${rule}:${sim}:${version}:${bucket}`
pub record SweepKey : Type 0 where
  pub rule_id : ℕ
  pub sim_id : ℕ
  pub version : ℕ
  pub bucket : ℕ

pub record MerchantGroupPolicy : Type 0 where
  pub merchant_id : ℕ
  pub dedicated : Bool

pub record SweepExecution : Type 0 where
  pub rule_id : ℕ
  pub sim_wallet_id : ℕ
  pub idempotency_key : SweepKey
  pub amount_minor : ℤ
  pub created_at : ℕ
  pub transfer_id : ℕ
  pub status : SweepExecutionStatus
  pub completed_at : Option ℕ

pub record TreasuryWallet : Type 0 where
  pub merchant_id : Option ℕ
  pub account_name : String
  pub status : TreasuryWalletStatus
  pub environment : Environment
  pub phone_number : String
  pub predicted_balance_minor : ℤ

pub data AggregateType : Type 0 where
  deposit transfer settlement sweep_execution : AggregateType

-- `payload.status`, and `payload.p2p_status` of a transfer, of the operation that a transfer is
-- linked to, and of a paid deposit, whose word is the same
pub record OutboxEvent : Type 0 where
  pub aggregate_type : AggregateType
  pub aggregate_id : ℕ
  pub status : CoarseStatus
  pub p2p_status : Option TransferStatus

pub data AuditAction : Type 0 where
  cancel_precommit manual_resolution name_approved_retry profile_upgraded_precommit : AuditAction
  settlement_requested settlement_approved settlement_rejected : AuditAction
  sweep_rule_created sweep_rule_updated sweep_rule_disabled sweep_rule_approved : AuditAction
  sweep_rule_rejected sweep_dispatched : AuditAction

pub record AuditLog : Type 0 where
  pub actor_id : ℕ
  pub action : AuditAction
  pub target_id : ℕ
  pub reason : String

-- an `inboxEvent` row; the rows of each source stand in a list of their own
pub record InboxEvent : Type 0 where
  pub external_id : ℕ
  pub payload_hash : ℕ

pub data ReceiptDirection : Type 0 where
  incoming outgoing : ReceiptDirection

pub data ReceiptType : Type 0 where
  incoming_transfer outgoing_transfer balance unknown : ReceiptType

pub record SmsReceipt : Type 0 where
  pub event_id : ℕ
  pub sim_wallet_id : ℕ
  pub direction : ReceiptDirection
  pub type : ReceiptType
  pub provider_transaction_id : Option String
  pub amount_minor : Option ℤ
  pub counterparty_phone_prefix : Option String
  pub counterparty_phone_suffix : Option String
  pub counterparty_name : Option String
  pub provider_occurred_at : Option ℕ
  pub received_at : ℕ

pub record BalanceSnapshot : Type 0 where
  pub sim_wallet_id : ℕ
  pub main_balance_minor : ℤ
  pub incentive_balance_minor : ℤ
  pub fuel_balance_minor : ℤ
  pub pocket_money_balance_minor : ℤ
  pub source : BalanceSource
  pub observed_at : ℕ

pub record MerchantConfig : Type 0 where
  pub allow_alternate_withdrawal_phone : Bool
  pub deposit_minimum_minor : ℤ
  pub deposit_maximum_minor : ℤ
  pub wrong_amount_tolerance_minor : ℤ
  pub deposit_countdown_seconds : ℕ
  pub deposit_late_grace_seconds : ℕ
  pub gateway_fee_flat_minor : ℤ
  pub reserve_provider_fee_minor : ℤ

-- `is_topup` is what the metadata say of the intent's kind
pub record DepositIntent : Type 0 where
  pub owner : FinancialContext
  pub sim_wallet_id : ℕ
  pub tx_ref : String
  pub customer_id : String
  pub customer_name : String
  pub customer_phone : String
  pub amount_minor : ℤ
  pub credited_amount_minor : Option ℤ
  pub status : DepositStatus
  pub is_topup : Bool
  pub expires_at : ℕ
  pub late_grace_ends_at : ℕ
  pub matched_receipt_id : Option ℕ
  pub provider_transaction_id : Option String
  pub created_at : ℕ
