-- ===== src/Settlements/Review.antt =====
-- apps/api/src/settlements/settlements.service.ts: the request of a settlement, and its approval or
-- rejection by staff. An approval queues a transfer of the merchant's own money.
use Prim.Native.String.{String}
use pay.Shared.{
  ℕ, ◌+◌, Bool, true, false, ◌&&◌, Option, none, some, if◌then◌else◌, is_some, find, create, modify,
  Result, ok, ◌>>=◌, ◌>>◌, require, or_throw, not_found, invalid_state,
}
use pay.Shared.Int.{ℤ}
use pay.Shared.Texts.{append}
use pay.Domain.{FinancialContext}
use pay.Store.{
  Db, Transfer, TransferStatus, SettlementRequest, SettlementStatus, DeviceJobType, merchant_debit,
  MerchantConfig, OutboxEvent, CoarseStatus, AggregateType, AuditAction,
}
use pay.Contracts.{minor_to_amount, amount_to_minor}
use pay.Withdrawals.{TransferInput, QueueTransferOptions, queue_transfer, audited, emit}

-- `canReviewSettlement`
unfoldable pub can_review_settlement : SettlementStatus → Bool
can_review_settlement SettlementStatus.requested = true
can_review_settlement _ = false

-- the statuses of a settlement whose approval is answered again
abbrev pub is_approved : SettlementStatus → Bool
is_approved SettlementStatus.requested = false
is_approved SettlementStatus.rejected = false
is_approved _ = true

abbrev pub is_rejected : SettlementStatus → Bool
is_rejected SettlementStatus.rejected = true
is_rejected _ = false

-- `settlementTransferReference`, of the text of an id
unfoldable pub settlement_transfer_reference : (id_text : String) → String
unfolding append
settlement_transfer_reference id_text = append "SET:" id_text

-- the status of a settlement by that of its new transfer
unfoldable pub dispatched_as : TransferStatus → SettlementStatus
dispatched_as TransferStatus.success = SettlementStatus.success
dispatched_as TransferStatus.failed = SettlementStatus.failed
dispatched_as TransferStatus.unknown = SettlementStatus.unknown
dispatched_as _ = SettlementStatus.dispatched

abbrev coarse_settlement_status : SettlementStatus → CoarseStatus
coarse_settlement_status SettlementStatus.success = CoarseStatus.success
coarse_settlement_status SettlementStatus.failed = CoarseStatus.failed
coarse_settlement_status _ = CoarseStatus.pending

abbrev settlement_event : ℕ → CoarseStatus → OutboxEvent
settlement_event id status = record {
  aggregate_type = AggregateType.settlement;
  aggregate_id = id;
  status = status;
  p2p_status = none;
}

-- what a merchant asks for; the amount has gone through `amountToMinor`
pub record SettlementInput : Type 0 where
  pub reference : String
  pub account_number : String
  pub expected_name : String
  pub amount_minor : ℤ

-- what `request` executes inside the idempotency record; the request takes the next id
unfoldable pub request_settlement : FinancialContext → (api_key : ℕ) → SettlementInput → Db → Db
request_settlement auth api_key input db =
    audited api_key AuditAction.settlement_requested db.next_id "" (
      emit (settlement_event db.next_id CoarseStatus.pending) (record db {
        settlements =
            create db.next_id
              (record {
                owner = auth;
                transfer_id = none;
                reference = input.reference;
                destination_phone = input.account_number;
                expected_name = input.expected_name;
                amount_minor = input.amount_minor;
                requested_by = api_key;
                reviewed_by = none;
                review_reason = none;
                reviewed_at = none;
                status = SettlementStatus.requested;
              })
              db.settlements;
        next_id = db.next_id + 1;
      }))

abbrev pub reviewed :
    SettlementStatus
    → (now reviewer : ℕ) → (reason : String) → SettlementRequest
    → SettlementRequest
reviewed status now reviewer reason s = record s {
  status = status;
  reviewed_by = some reviewer;
  review_reason = some reason;
  reviewed_at = some now;
}

abbrev pub settlement_options : QueueTransferOptions
settlement_options = record {
  operation_kind = DeviceJobType.merchant_settlement;
  financial_mode = merchant_debit;
  priority = 300;
}

-- the transfer that an approval asks for
abbrev pub settlement_transfer : (id_text : String) → SettlementRequest → ℤ → TransferInput
settlement_transfer id_text s amount = record {
  reference = settlement_transfer_reference id_text;
  account_number = s.destination_phone;
  expected_name = s.expected_name;
  amount_minor = amount;
  is_alternate = false;
  test_scenario = none;
}

abbrev pub status_or_accepted : Option Transfer → TransferStatus
status_or_accepted none = TransferStatus.accepted
status_or_accepted (some t) = t.status

abbrev pub set_settlement : ℕ → (SettlementRequest → SettlementRequest) → Db → Db
set_settlement id f db = record db { settlements = modify id f db.settlements }

abbrev pub link : (transfer_id : ℕ) → SettlementStatus → SettlementRequest → SettlementRequest
link transfer_id status s = record s { transfer_id = some transfer_id; status = status }

-- the settlement gets its transfer, whose id was the next one before it was queued
unfoldable pub link_transfer : (id transfer_id reviewer : ℕ) → (reason : String) → Db → Db
unfolding find
link_transfer id transfer_id reviewer reason db =
    let status = dispatched_as (status_or_accepted (find transfer_id db.transfers)) in
    emit (settlement_event id (coarse_settlement_status status)) (
      audited reviewer AuditAction.settlement_approved id reason
        (set_settlement id (link transfer_id status) db))

-- the amount goes to `queueTransfer` as a text, which reads it again
unfoldable pub dispatch_settlement :
    (now id : ℕ)
    → (id_text reason : String) → (reviewer : ℕ) → MerchantConfig
    → (provider_id : String) → (sim_choice : Result ℕ) → SettlementRequest
    → Db
    → Result Db
dispatch_settlement now id id_text reason reviewer config provider_id sim_choice s db = do
  amount ← amount_to_minor (minor_to_amount s.amount_minor)
  db' ←
      queue_transfer now s.owner (settlement_transfer id_text s amount) settlement_options config
        provider_id sim_choice
        (set_settlement id (reviewed SettlementStatus.approved now reviewer reason) db)
  ok (link_transfer id db.next_id reviewer reason db')

-- `approve`
unfoldable pub approve :
    (now id : ℕ)
    → (id_text reason : String) → (reviewer : ℕ) → MerchantConfig
    → (provider_id : String) → (sim_choice : Result ℕ) → Db
    → Result Db
approve now id id_text reason reviewer config provider_id sim_choice db = do
  s ← or_throw (find id db.settlements) not_found
  (if is_some s.transfer_id && is_approved s.status
      then ok db
      else (require (can_review_settlement s.status) invalid_state
          >> dispatch_settlement now id id_text reason reviewer config provider_id sim_choice s db))

-- `reject`
unfoldable pub reject : (now id : ℕ) → (reason : String) → (reviewer : ℕ) → Db → Result Db
reject now id reason reviewer db = do
  s ← or_throw (find id db.settlements) not_found
  (if is_rejected s.status
      then ok db
      else (require (can_review_settlement s.status) invalid_state
          >> ok (
              emit (settlement_event id CoarseStatus.failed) (
                audited reviewer AuditAction.settlement_rejected id reason (
                  set_settlement id (reviewed SettlementStatus.rejected now reviewer reason) db)))))
