-- ===== src/Store/Enums.antt =====
-- The enumerations of apps/api/prisma/schema.prisma that the payment services branch on, with the
-- membership tests that the code writes as `[...].includes(status)`.
use pay.Shared.{Bool, true, false}

pub data TransferStatus : Type 0 where
  accepted queued device_assigned device_started committed provider_pending : TransferStatus
  success failed unknown manual_review cancelled : TransferStatus

pub data DepositStatus : Type 0 where
  awaiting_payment late_grace matching manual_review success expired failed : DepositStatus

pub data DeviceJobState : Type 0 where
  queued leased device_started committed provider_pending : DeviceJobState
  succeeded failed unknown cancelled : DeviceJobState

pub data DeviceJobType : Type 0 where
  customer_withdrawal unknown_reconciliation merchant_settlement : DeviceJobType
  emergency_liquidity_move automatic_sweep balance_query : DeviceJobType

pub data FinancialMode : Type 0 where
  merchant_debit internal_move : FinancialMode

pub data SimStatus : Type 0 where
  pending active payout_stale quarantined disabled : SimStatus

pub data DeviceStatus : Type 0 where
  pending qualifying online degraded offline quarantined retired : DeviceStatus

pub data SettlementStatus : Type 0 where
  requested approved rejected dispatched success failed unknown manual_review : SettlementStatus

pub data SweepExecutionStatus : Type 0 where
  queued device_started committed provider_pending success failed unknown manual_review :
      SweepExecutionStatus

-- `status` of the public API: `coarseTransferStatus`
pub data CoarseStatus : Type 0 where
  pending success failed : CoarseStatus

abbrev pub coarse_transfer_status : TransferStatus → CoarseStatus
coarse_transfer_status TransferStatus.success = CoarseStatus.success
coarse_transfer_status TransferStatus.failed = CoarseStatus.failed
coarse_transfer_status TransferStatus.cancelled = CoarseStatus.failed
coarse_transfer_status _ = CoarseStatus.pending

-- `['accepted', 'queued', 'device_assigned']`
abbrev pub is_before_start : TransferStatus → Bool
is_before_start TransferStatus.accepted = true
is_before_start TransferStatus.queued = true
is_before_start TransferStatus.device_assigned = true
is_before_start _ = false

-- `['unknown', 'manual_review']`
abbrev pub is_unresolved : TransferStatus → Bool
is_unresolved TransferStatus.unknown = true
is_unresolved TransferStatus.manual_review = true
is_unresolved _ = false

-- `['success', 'failed', 'unknown', 'manual_review', 'cancelled']`
abbrev pub is_settled_or_held : TransferStatus → Bool
is_settled_or_held TransferStatus.success = true
is_settled_or_held TransferStatus.failed = true
is_settled_or_held TransferStatus.unknown = true
is_settled_or_held TransferStatus.manual_review = true
is_settled_or_held TransferStatus.cancelled = true
is_settled_or_held _ = false

-- `['leased', 'device_started', 'committed', 'provider_pending']`
abbrev pub is_active_job : DeviceJobState → Bool
is_active_job DeviceJobState.leased = true
is_active_job DeviceJobState.device_started = true
is_active_job DeviceJobState.committed = true
is_active_job DeviceJobState.provider_pending = true
is_active_job _ = false

-- `!['balance_query', 'unknown_reconciliation'].includes(type)`
abbrev pub is_money_moving : DeviceJobType → Bool
is_money_moving DeviceJobType.balance_query = false
is_money_moving DeviceJobType.unknown_reconciliation = false
is_money_moving _ = true

abbrev pub is_online : DeviceStatus → Bool
is_online DeviceStatus.online = true
is_online _ = false

abbrev pub is_active_sim : SimStatus → Bool
is_active_sim SimStatus.active = true
is_active_sim _ = false

pub data SweepRuleStatus : Type 0 where
  pending approved rejected disabled : SweepRuleStatus

pub data SweepDestinationType : Type 0 where
  platform_treasury merchant_owned : SweepDestinationType

pub data TreasuryWalletStatus : Type 0 where
  pending active disabled quarantined : TreasuryWalletStatus
