-- ===== src/Devices/Tests.antt =====
-- Runs of the device jobs' handlers at a concrete database, and the theorems about them there.
use Prim.Native.String.{String}
use pay.Shared.{
  ℕ, ◌≡◌, ◌≢◌, refl, Option, none, some, Result, ok, err, find, modify, modify_many, any,
  device_not_qualified,
}
use pay.Shared.Int.{pos, ◌+ℤ◌, ◌-ℤ◌}
use pay.Domain.{NameDecision, matching, same_owner}
use pay.Samples.{payout_in, attempt, job_in, db_in, after}
use pay.Ledger.{
  credit_deposit, reserve_withdrawal, release_withdrawal_reservation, post, post_entries,
  post_entry, ensure_accounts, balance, available_minor, same_account,
}
use pay.Store.{Db, TransferStatus, DeviceJob, DeviceJobState}
use pay.Withdrawals.{find_by, release_funds, update_linked_operation}
use pay.Withdrawals.Resolution.{status_of}
use pay.Devices.Rules.{
  finite, allowed_transition, financially_safe_report_state, bounded_job_observed_at,
  should_release_device_lock, classify_precommit_name, job_status_inbox_disposition, name_mismatch,
  no_disposition, process, duplicate, job_expiry_disposition,
}
use pay.Devices.Reports.{
  DeviceJobReport, SpoolContext, inbox_hash, may_start, persist_spool_outcome,
}
use pay.Devices.Report.{linked_transfer}
use pay.Devices.Handler.{
  update_transfer_for_report, is_qualified, keep_evidence, effective_state, possible_commit_at,
  move_job,
}
use pay.Devices.Handling.{
  spool_disposition, names_operation, name_disposition, apply_report, report,
}
use pay.Devices.Expiry.{expire_job, hold_as_unknown, release_expired}
use pay.Devices.Frames.{SameFunds}
use pay.Devices.Cases.{named}
use pay.Devices.Steps.{JobStep}
use pay.Devices.Safety.{report-IsStep, report-SameFunds, report-never_succeeds, report-replay}
use pay.Devices.Clock.{report-refuses_clock}
use pay.Devices.Sweep.{expire_job-holds}

abbrev reported : DeviceJobState → ℕ → DeviceJobReport
reported s at = record {
  state = s;
  fencing_token = 9;
  observed_at_ms = finite (pos at);
  error_code = "";
}

abbrev event : SpoolContext
event = record {
  event_id = 77;
  payload_hash = 123;
  financial_operation_id = 3;
  expected_receiver_name = some "Abebe Kebede";
  provider_receiver_name = none;
}

abbrev compare_names : String → String → NameDecision
compare_names a b = matching

abbrev no_trim : String → String
no_trim s = s

abbrev run : DeviceJobState → DeviceJobState → ℕ → Result Db
run before s at =
    report compare_names no_trim 110000 600 5 1 (reported s at) (some event)
      (db_in TransferStatus.queued before)

reports : Unit {0}
unfolding report apply_report name_disposition spool_disposition names_operation move_job
    possible_commit_at effective_state keep_evidence is_qualified update_transfer_for_report
    linked_transfer inbox_hash may_start persist_spool_outcome allowed_transition
    financially_safe_report_state bounded_job_observed_at should_release_device_lock
    classify_precommit_name job_status_inbox_disposition find modify modify_many find_by ◌+ℤ◌ ◌-ℤ◌
    expire_job hold_as_unknown release_expired update_linked_operation job_expiry_disposition
    release_funds reserve_withdrawal credit_deposit release_withdrawal_reservation post post_entries
    post_entry ensure_accounts balance available_minor any same_account same_owner
reports = tt

-- a start is accepted, and a failure after it is held as unknown
start_and_fail :
    (run DeviceJobState.leased DeviceJobState.device_started 105000
      ≡ ok (after (run DeviceJobState.leased DeviceJobState.device_started 105000)))
    × (status_of (
          find 3 (after (run DeviceJobState.device_started DeviceJobState.failed 105000)).transfers)
        ≡ some TransferStatus.unknown)
unfolding reports
start_and_fail = (refl, refl)

-- a start with a time of two minutes ahead is refused
wrong_clock :
    run DeviceJobState.leased DeviceJobState.device_started 230000 ≡ err device_not_qualified
unfolding reports
wrong_clock = refl

started-not_leased : DeviceJobState.device_started ≢ DeviceJobState.leased
started-not_leased h = cc

started-not_succeeded : DeviceJobState.device_started ≢ DeviceJobState.succeeded
started-not_succeeded h = cc

none-not_mismatch : (e o : String) → no_disposition ≢ name_mismatch e o
none-not_mismatch e o h = cc

process-not_duplicate : process ≢ duplicate
process-not_duplicate h = cc

abbrev commit_time : Option ℕ
commit_time = some 105000

abbrev before : Db
before = db_in TransferStatus.queued DeviceJobState.device_started

abbrev later : Db
later = after (run DeviceJobState.device_started DeviceJobState.failed 105000)

report-IsStep_example :
    (k : DeviceJob) × (find 1 later.jobs ≡ some k)
    × JobStep
        (named compare_names no_trim 110000 600 5 1
          (reported DeviceJobState.failed 105000)
          (some event)
          (job_in DeviceJobState.device_started)
          before)
        (reported DeviceJobState.failed 105000)
        (job_in DeviceJobState.device_started)
        k
unfolding reports
report-IsStep_example =
    report-IsStep compare_names no_trim 110000 600 5 1 (reported DeviceJobState.failed 105000)
      (some event) before later (job_in DeviceJobState.device_started) refl refl

report-SameFunds_example : SameFunds before later
unfolding reports
report-SameFunds_example =
    report-SameFunds compare_names no_trim 110000 600 5 1 (reported DeviceJobState.failed 105000)
      (some event) before later (job_in DeviceJobState.device_started) refl refl started-not_leased
      none-not_mismatch refl

report-never_succeeds_example :
    (k : DeviceJob) × (find 1 later.jobs ≡ some k) × (k.state ≢ DeviceJobState.succeeded)
unfolding reports
report-never_succeeds_example =
    report-never_succeeds compare_names no_trim 110000 600 5 1
      (reported DeviceJobState.failed 105000) (some event) before later
      (job_in DeviceJobState.device_started) refl started-not_succeeded refl

report-replay_example :
    report compare_names no_trim 999000 60 5 1
      (reported DeviceJobState.failed 105000)
      (some event)
      later
    ≡ ok later
unfolding reports
report-replay_example =
    report-replay compare_names no_trim 110000 600 5 1 (reported DeviceJobState.failed 105000) event
      before later 999000 60 refl

report-refuses_clock_example :
    report compare_names no_trim 110000 600 5 1
      (reported DeviceJobState.device_started 230000)
      (some event)
      (db_in TransferStatus.queued DeviceJobState.leased)
    ≢ ok before
unfolding reports
report-refuses_clock_example =
    report-refuses_clock compare_names no_trim 110000 600 5 1
      (reported DeviceJobState.device_started 230000) (some event)
      (db_in TransferStatus.queued DeviceJobState.leased) before (job_in DeviceJobState.leased) refl
      refl refl refl refl process-not_duplicate

abbrev expired : DeviceJobState → Result Db
expired s =
    expire_job 950000 1 (job_in s) (some (2, attempt, payout_in TransferStatus.queued))
      (db_in TransferStatus.queued s)

expire_job-holds_example : SameFunds before (after (expired DeviceJobState.device_started))
unfolding reports
expire_job-holds_example =
    expire_job-holds 950000 1 (job_in DeviceJobState.device_started) before
      (after (expired DeviceJobState.device_started))
      (some (2, attempt, payout_in TransferStatus.queued)) refl refl
