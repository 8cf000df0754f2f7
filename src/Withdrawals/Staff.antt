-- ===== src/Withdrawals/Staff.antt =====
-- apps/api/src/withdrawals/withdrawals.service.ts: what a caller or the platform's staff does to a
-- transfer that exists: `verify`, `completeTest`, `cancelBeforeStart` and `approveNameAndRetry`.
use Prim.Native.String.{String}
use pay.Shared.{
  ℕ, ◌+◌, Bool, true, false, not, ◌&&◌, ◌||◌, Option, none, some, List, [], ◌∷◌, ◌==◌,
  if◌then◌else◌, is_some, modify, modify_many, find, Result, ok, err, ◌>>=◌, ◌>>◌, require,
  or_throw, str_eq, forbidden, not_found, invalid_state, duplicate_reference_conflict,
}
use pay.Domain.{
  Environment, test, live, FinancialContext, same_owner, ReconciliationCase, CaseType,
  receiver_name_review, CaseStatus, opened, proposed, resolved, rejected, names, NameDecision,
  uncertain,
}
use pay.Store.{
  Db, Transfer, TransferAttempt, TransferStatus, DeviceJob, DeviceJobState, DeviceJobType,
  AttemptOutcome, is_before_start, SettlementStatus, SweepExecutionStatus, AuditAction,
}
use pay.Withdrawals.Funds.{
  physical_reservation, release_funds, release_sim, set_transfer, latest_attempt, transfer_event,
  emit, LinkedStatus, update_linked_operation, is_settlement_of, find_by,
}
use pay.Withdrawals.Simulator.{TestOutcome, finalize_test}
use pay.Withdrawals.Queue.{enqueue_job}

-- the unique key `merchantId_environment_reference`
abbrev pub has_reference : FinancialContext → String → Transfer → Bool
has_reference auth reference t = same_owner auth t.owner && str_eq t.reference reference

-- `verify`: the transfer that the view is made of
unfoldable pub verify : FinancialContext → String → Db → Result (ℕ × Transfer)
unfolding find_by
verify auth reference db = or_throw (find_by (has_reference auth reference) db.transfers) not_found

abbrev pub is_accepted_or_queued : TransferStatus → Bool
is_accepted_or_queued TransferStatus.accepted = true
is_accepted_or_queued TransferStatus.queued = true
is_accepted_or_queued _ = false

-- `transfer.status === outcome`
abbrev pub is_outcome : TransferStatus → TestOutcome → Bool
is_outcome TransferStatus.success TestOutcome.success = true
is_outcome TransferStatus.failed TestOutcome.failed = true
is_outcome TransferStatus.unknown TestOutcome.unknown = true
is_outcome _ _ = false

abbrev pub is_test : Environment → Bool
is_test test = true
is_test live = false

-- `completeTest`. A transfer of the test environment always names its SIM.
unfoldable pub complete_test : ℕ → FinancialContext → String → TestOutcome → String → Db → Result Db
unfolding verify
complete_test now auth reference outcome provider_id db = do
  require (is_test auth.environment) forbidden
  (id, t) ← verify auth reference db
  (if is_accepted_or_queued t.status
      then (or_throw t.sim_wallet_id invalid_state >>= λ sim.
          finalize_test now id t sim provider_id outcome db)
      else if is_outcome t.status outcome
      then ok db
      else err duplicate_reference_conflict)

abbrev pub is_queued_job : DeviceJobState → Bool
is_queued_job DeviceJobState.queued = true
is_queued_job _ = false

-- the job of an attempt, where there is one
abbrev pub job_of : Option (ℕ × TransferAttempt) → Db → Option DeviceJob
job_of none db = none
job_of (some (_, a)) db = elim a.device_job_id [ none ↦ none | some job_id ↦ find job_id db.jobs ]

-- `!(attempt?.deviceJob && !test(attempt.deviceJob.state))`
abbrev pub job_allows : (DeviceJobState → Bool) → Option DeviceJob → Bool
job_allows allowed none = true
job_allows allowed (some j) = allowed j.state

-- the attempt's job and the attempt get their final state, `if (attempt?.deviceJobId)`
unfoldable pub close_attempt :
    ℕ → DeviceJobState → AttemptOutcome → Option String → Option (ℕ × TransferAttempt) → Db → Db
close_attempt now state outcome code none db = db
close_attempt now state outcome code (some (id, a)) db = elim a.device_job_id [
  | none ↦ db
  | some job_id ↦ record db {
    jobs =
        modify job_id (λ j. record j { state = state; completed_at = some now; error_code = code })
          db.jobs;
    attempts =
        modify id
          (λ b. record b { completed_at = some now; outcome = some outcome; error_code = code })
          db.attempts;
  }
]

abbrev pub audited : ℕ → AuditAction → ℕ → String → Db → Db
audited actor action target reason db = record db {
  audit =
      record { actor_id = actor; action = action; target_id = target; reason = reason } ∷ db.audit;
}

-- `cancelBeforeStart`
unfoldable pub cancel_before_start : ℕ → ℕ → String → ℕ → Db → Result Db
cancel_before_start now id reason actor db = do
  t ← or_throw (find id db.transfers) not_found
  require (is_before_start t.status) invalid_state
  let attempt = latest_attempt id db.attempts
  require (job_allows is_queued_job (job_of attempt db)) invalid_state
  books' ← release_funds id t db.books
  ok (
      update_linked_operation now id LinkedStatus.failed (
        emit (transfer_event id TransferStatus.cancelled) (
          audited actor AuditAction.cancel_precommit id reason (
            set_transfer id
              (λ r. record r { status = TransferStatus.cancelled; completed_at = some now })
              (close_attempt now DeviceJobState.cancelled AttemptOutcome.cancelled
                (some "PLATFORM_CANCELLED_PRECOMMIT") attempt
                (release_sim t.sim_wallet_id (physical_reservation t)
                  (record db { books = books' })))))))

-- `status: { in: ['open', 'proposed'] }`
abbrev pub is_open_case : CaseStatus → Bool
is_open_case opened = true
is_open_case proposed = true
is_open_case resolved = false
is_open_case rejected = false

abbrev pub is_name_review : CaseType → Bool
is_name_review receiver_name_review = true
is_name_review _ = false

abbrev pub is_open_name_review : ℕ → ReconciliationCase → Bool
is_open_name_review id c =
    (is_name_review c.type && (id == c.reference_id)) && is_open_case c.status

-- the newest open name review of the transfer: cases are listed with the newest first
unfoldable pub open_name_review : ℕ → List ReconciliationCase → Option ReconciliationCase
open_name_review id [] = none
open_name_review id (c ∷ cs) = if is_open_name_review id c then some c else open_name_review id cs

abbrev is_uncertain : NameDecision → Bool
is_uncertain uncertain = true
is_uncertain _ = false

-- the provider's name in an uncertain review; `trim` of the observed name is a parameter
unfoldable pub approvable_name : (String → String) → Option ReconciliationCase → Result String
approvable_name trim none = err invalid_state
approvable_name trim (some c) = elim c.evidence [
  | names expected observed decision job_id ↦
      if not (is_uncertain decision) || str_eq (trim observed) ""
      then err invalid_state
      else ok (trim observed)
  | _ ↦ err invalid_state
]

abbrev resolve_reviews : ℕ → List ReconciliationCase → List ReconciliationCase
resolve_reviews id [] = []
resolve_reviews id (c ∷ cs) =
    (if is_open_name_review id c then record c { status = resolved } else c) ∷ resolve_reviews id cs

-- `priorityForOperation`
abbrev pub priority_for_operation : DeviceJobType → ℕ
priority_for_operation DeviceJobType.customer_withdrawal = 500
priority_for_operation DeviceJobType.unknown_reconciliation = 400
priority_for_operation DeviceJobType.merchant_settlement = 300
priority_for_operation DeviceJobType.emergency_liquidity_move = 300
priority_for_operation DeviceJobType.automatic_sweep = 200
priority_for_operation DeviceJobType.balance_query = 100

abbrev pub is_manual_review : TransferStatus → Bool
is_manual_review TransferStatus.manual_review = true
is_manual_review _ = false

abbrev pub is_stopped_job : DeviceJobState → Bool
is_stopped_job DeviceJobState.cancelled = true
is_stopped_job DeviceJobState.failed = true
is_stopped_job _ = false

abbrev pub attempt_number_or_zero : Option (ℕ × TransferAttempt) → ℕ
attempt_number_or_zero none = 0
attempt_number_or_zero (some (_, a)) = a.attempt_number

-- `approveNameAndRetry`
unfoldable pub approve_name_and_retry : (String → String) → ℕ → ℕ → String → ℕ → Db → Result Db
approve_name_and_retry trim now id reason actor db = do
  t ← or_throw (find id db.transfers) not_found
  require (is_manual_review t.status && not (is_some t.committed_at)) invalid_state
  sim ← or_throw t.sim_wallet_id invalid_state
  let previous = latest_attempt id db.attempts
  require (job_allows is_stopped_job (job_of previous db)) invalid_state
  name ← approvable_name trim (open_name_review id db.books.cases)
  db' ←
      enqueue_job now id t sim (attempt_number_or_zero previous + 1)
        (priority_for_operation t.operation_kind) (some name) db
  ok (
      emit (transfer_event id TransferStatus.queued) (
        audited actor AuditAction.name_approved_retry id reason
          (record (set_transfer id
            (λ r. record r {
              status = TransferStatus.queued;
              resolved_name = some name;
              estimated_completion_at = some (now + 60000);
            })
            db') {
              books = record (db'.books) { cases = resolve_reviews id db'.books.cases };
              settlements =
                  modify_many (is_settlement_of id)
                    (λ r. record r { status = SettlementStatus.dispatched }) db'.settlements;
              sweeps =
                  modify_many (λ r. id == r.transfer_id)
                    (λ r. record r { status = SweepExecutionStatus.queued; completed_at = none })
                    db'.sweeps;
            })))
