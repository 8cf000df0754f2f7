-- ===== src/Devices/Report.antt =====
-- apps/api/src/devices/device-jobs.service.ts: what a reported state means for the rows that follow
-- a job, from the tables inside `updateTransferForReport`.
use pay.Shared.{ℕ, Bool, true, false, Option, none, some, find, Result, ok, ◌>>=◌}
use pay.Domain.{unknown_payout, precommit_cancelled, opened, job}
use pay.Store.{
  Db, Transfer, TransferAttempt, TransferStatus, DeviceJobState, AttemptOutcome, SettlementStatus,
  SweepExecutionStatus,
}
use pay.Withdrawals.{
  physical_reservation, release_funds, release_sim, transfer_event, emit, find_by,
}
use pay.Devices.Reports.{is_attempt_of, add_case}

-- the attempt of a job and its transfer
unfoldable pub linked_transfer : ℕ → Db → Option (ℕ × TransferAttempt × Transfer)
linked_transfer job_id db = elim (find_by (is_attempt_of job_id) db.attempts) [
  | none ↦ none
  | some (id, a) ↦ elim (find a.transfer_id db.transfers) [ none ↦ none | some t ↦ some (id, a, t) ]
]

-- the transfer's status for the state that a report takes effect with
abbrev pub transfer_status_for : DeviceJobState → TransferStatus → TransferStatus
transfer_status_for DeviceJobState.device_started s = TransferStatus.device_started
transfer_status_for DeviceJobState.committed s = TransferStatus.committed
transfer_status_for DeviceJobState.provider_pending s = TransferStatus.provider_pending
transfer_status_for DeviceJobState.unknown s = TransferStatus.unknown
transfer_status_for DeviceJobState.cancelled s = TransferStatus.manual_review
transfer_status_for DeviceJobState.failed s = TransferStatus.failed
transfer_status_for DeviceJobState.queued s = s
transfer_status_for DeviceJobState.leased s = s
transfer_status_for DeviceJobState.succeeded s = s

abbrev pub is_commit_or_unknown : DeviceJobState → Bool
is_commit_or_unknown DeviceJobState.committed = true
is_commit_or_unknown DeviceJobState.unknown = true
is_commit_or_unknown _ = false

abbrev pub is_failed : DeviceJobState → Bool
is_failed DeviceJobState.failed = true
is_failed _ = false

abbrev pub is_started : DeviceJobState → Bool
is_started DeviceJobState.device_started = true
is_started _ = false

abbrev pub is_unknown : DeviceJobState → Bool
is_unknown DeviceJobState.unknown = true
is_unknown _ = false

abbrev pub is_committed : DeviceJobState → Bool
is_committed DeviceJobState.committed = true
is_committed _ = false

-- an attempt's outcome for a failed or an unknown report
abbrev pub outcome_for : DeviceJobState → Option AttemptOutcome → Option AttemptOutcome
outcome_for DeviceJobState.failed old = some AttemptOutcome.failed
outcome_for DeviceJobState.unknown old = some AttemptOutcome.unknown
outcome_for _ old = old

abbrev pub is_failed_or_unknown : DeviceJobState → Bool
is_failed_or_unknown DeviceJobState.failed = true
is_failed_or_unknown DeviceJobState.unknown = true
is_failed_or_unknown _ = false

-- the linked sweep and settlement follow the report
abbrev pub sweep_for : DeviceJobState → SweepExecutionStatus → SweepExecutionStatus
sweep_for DeviceJobState.device_started s = SweepExecutionStatus.device_started
sweep_for DeviceJobState.committed s = SweepExecutionStatus.committed
sweep_for DeviceJobState.provider_pending s = SweepExecutionStatus.provider_pending
sweep_for DeviceJobState.failed s = SweepExecutionStatus.failed
sweep_for DeviceJobState.unknown s = SweepExecutionStatus.unknown
sweep_for DeviceJobState.cancelled s = SweepExecutionStatus.manual_review
sweep_for DeviceJobState.queued s = s
sweep_for DeviceJobState.leased s = s
sweep_for DeviceJobState.succeeded s = s

abbrev pub settlement_for : DeviceJobState → SettlementStatus → SettlementStatus
settlement_for DeviceJobState.failed s = SettlementStatus.failed
settlement_for DeviceJobState.unknown s = SettlementStatus.unknown
settlement_for DeviceJobState.cancelled s = SettlementStatus.manual_review
settlement_for _ s = s

-- the states that an event reports: all but a queued, a leased and a succeeded job
abbrev pub emits_event : DeviceJobState → Bool
emits_event DeviceJobState.queued = false
emits_event DeviceJobState.leased = false
emits_event DeviceJobState.succeeded = false
emits_event _ = true

abbrev pub emit_if : Bool → ℕ → TransferStatus → Db → Db
emit_if true id s db = emit (transfer_event id s) db
emit_if false id s db = db

-- the case that an unknown or a cancelled report opens
abbrev pub report_case : DeviceJobState → ℕ → ℕ → Transfer → Db → Db
report_case DeviceJobState.unknown job_id id t db =
    add_case
      (record {
        merchant_id = some (t.owner.merchant_id);
        type = unknown_payout;
        status = opened;
        reference_id = id;
        evidence = job job_id;
      })
      db
report_case DeviceJobState.cancelled job_id id t db =
    add_case
      (record {
        merchant_id = some (t.owner.merchant_id);
        type = precommit_cancelled;
        status = opened;
        reference_id = id;
        evidence = job job_id;
      })
      db
report_case _ job_id id t db = db

-- a failed report gives the money back: to the merchant's ledger, and to the SIM of the job
abbrev pub release_if_failed : DeviceJobState → ℕ → Transfer → ℕ → Db → Result Db
release_if_failed DeviceJobState.failed id t sim db = do
  books' ← release_funds id t db.books
  ok (release_sim (some sim) (physical_reservation t) (record db { books = books' }))
release_if_failed _ id t sim db = ok db
