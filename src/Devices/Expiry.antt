-- ===== src/Devices/Expiry.antt =====
-- apps/api/src/devices/device-jobs.service.ts: `expireFinancialJobs`, the sweeper that every minute
-- ends the jobs whose time is up, and `markExpiredCommittedUnknown`, which the lease uses.
use Prim.Native.String.{String}
use pay.Shared.{
  ℕ, ◌-◌, Bool, true, false, ◌&&◌, ◌||◌, Option, none, some, List, [], ◌∷◌, ◌==◌, leb,
  if◌then◌else◌, ◌or_else◌, ◌or_default◌, Table, modify, modify_many, Result, ok, ◌>>=◌,
}
use pay.Domain.{unknown_payout, opened, job}
use pay.Store.{
  Db, Transfer, TransferAttempt, TransferStatus, DeviceJob, DeviceJobState, Device, AttemptOutcome,
  is_settled_or_held, is_active_job,
}
use pay.Withdrawals.{
  physical_reservation, release_funds, release_sim, set_transfer, transfer_event, emit,
  LinkedStatus, update_linked_operation,
}
use pay.Devices.Rules.{ExpiryDisposition, release_precommit, hold_unknown, job_expiry_disposition}
use pay.Devices.Reports.{add_case}
use pay.Devices.Report.{linked_transfer}

-- `updateMany({ where: { activeUssdJobId: job.id }, data: { activeUssdJobId: null } })`
abbrev holds_job : ℕ → Device → Bool
holds_job job_id d = elim d.active_ussd_job_id [ none ↦ false | some k ↦ k == job_id ]

abbrev pub unlock_devices : ℕ → Db → Db
unlock_devices job_id db = record db {
  devices =
      modify_many (holds_job job_id) (λ (d : Device). record d { active_ussd_job_id = none })
        db.devices;
}

-- a job's last state, with the reason
abbrev pub end_job : (now job_id : ℕ) → DeviceJobState → Option ℕ → String → Db → Db
end_job now job_id state committed code db = record db {
  jobs =
      modify job_id
        (λ (j : DeviceJob). record j {
          state = state;
          committed_at = committed or_else j.committed_at;
          completed_at = some now;
          error_code = some code;
        })
        db.jobs;
}

abbrev pub job_state_of_terminal : TransferStatus → DeviceJobState
job_state_of_terminal TransferStatus.success = DeviceJobState.succeeded
job_state_of_terminal TransferStatus.failed = DeviceJobState.failed
job_state_of_terminal TransferStatus.cancelled = DeviceJobState.failed
job_state_of_terminal _ = DeviceJobState.unknown

abbrev end_attempt : (now attempt_id : ℕ) → AttemptOutcome → Option ℕ → String → Db → Db
end_attempt now attempt_id outcome committed code db = record db {
  attempts =
      modify attempt_id
        (λ (a : TransferAttempt). record a {
          committed_at = a.committed_at or_else committed;
          completed_at = some now;
          outcome = some outcome;
          error_code = some code;
        })
        db.attempts;
}

-- the PIN may have been entered: everything is held as unknown, with a case for the staff
unfoldable pub hold_as_unknown :
    (now job_id : ℕ) → (code : String) → DeviceJob → ℕ → TransferAttempt → Transfer → Db → Db
hold_as_unknown now job_id code j attempt_id a t db =
    let id = a.transfer_id in
    let possible = (j.committed_at or_else j.started_at) or_default j.created_at in
    emit (transfer_event id TransferStatus.unknown) (
      update_linked_operation now id LinkedStatus.unknown (
        add_case
          (record {
            merchant_id = some (t.owner.merchant_id);
            type = unknown_payout;
            status = opened;
            reference_id = id;
            evidence = job job_id;
          })
          (end_attempt now attempt_id AttemptOutcome.unknown (some possible) code (
            set_transfer id
              (λ (r : Transfer). record r {
                status = TransferStatus.unknown;
                committed_at = t.committed_at or_else some possible;
              })
              (end_job now job_id DeviceJobState.unknown (some possible) code db)))))

-- a job that no device has had: the money goes back
unfoldable pub release_expired :
    (now job_id : ℕ) → DeviceJob → ℕ → TransferAttempt → Transfer → Db → Result Db
release_expired now job_id j attempt_id a t db = do
  let id = a.transfer_id
  books' ← release_funds id t db.books
  ok (
      emit (transfer_event id TransferStatus.failed) (
        update_linked_operation now id LinkedStatus.failed (
          end_attempt now attempt_id AttemptOutcome.failed none "JOB_EXPIRED_PRECOMMIT" (
            set_transfer id
              (λ (r : Transfer). record r {
                status = TransferStatus.failed;
                completed_at = some now;
              })
              (end_job now job_id DeviceJobState.failed none "JOB_EXPIRED_PRECOMMIT" (
                release_sim (some j.sim_wallet_id) (physical_reservation t)
                  (record db { books = books' })))))))

abbrev pub by_expiry : ExpiryDisposition → (held released : Result Db) → Result Db
by_expiry hold_unknown held released = held
by_expiry release_precommit held released = released

-- one round of the sweeper's loop, on the job and the transfer that its query has read
unfoldable pub expire_job :
    (now job_id : ℕ) → DeviceJob → Option (ℕ × TransferAttempt × Transfer) → Db → Result Db
expire_job now job_id j none db = ok (
    unlock_devices job_id
      (end_job now job_id DeviceJobState.failed none "JOB_EXPIRED_PRECOMMIT" db))
expire_job now job_id j (some (attempt_id, a, t)) db =
    if is_settled_or_held t.status
    then ok (
        unlock_devices job_id (
          end_job now job_id (job_state_of_terminal t.status) none
            "JOB_EXPIRED_AFTER_TRANSFER_TERMINAL" db))
    else by_expiry (job_expiry_disposition j.state j.committed_at)
        (ok (
          unlock_devices job_id (
            hold_as_unknown now job_id "JOB_EXPIRED_AFTER_START_POSSIBLE_COMMIT" j attempt_id a t
              db)))
        (release_expired now job_id j attempt_id a t db >>= λ db'. ok (unlock_devices job_id db'))

abbrev is_queued : DeviceJobState → Bool
is_queued DeviceJobState.queued = true
is_queued _ = false

abbrev is_past : ℕ → Option ℕ → Bool
is_past now none = false
is_past now (some t) = leb t now

-- the sweeper's `where`
unfoldable pub is_due : ℕ → DeviceJob → Bool
is_due now j =
    (is_queued j.state || is_active_job j.state)
    && (leb j.expires_at now || is_past now j.lease_expires_at)

abbrev Due : Type 0
Due = ℕ × DeviceJob × Option (ℕ × TransferAttempt × Transfer)

unfoldable due_rows : ℕ → Table DeviceJob → Db → List Due
due_rows now [] db = []
due_rows now ((id, j) ∷ rows) db =
    if is_due now j
    then (id, j, linked_transfer id db) ∷ due_rows now rows db
    else due_rows now rows db

abbrev due_at : Due → ℕ
due_at (id, j, linked) = j.expires_at

unfoldable insert_due : Due → List Due → List Due
insert_due x [] = x ∷ []
insert_due x (y ∷ ys) = if leb (due_at x) (due_at y) then x ∷ y ∷ ys else y ∷ insert_due x ys

unfoldable sort_due : List Due → List Due
sort_due [] = []
sort_due (x ∷ xs) = insert_due x (sort_due xs)

unfoldable take_due : ℕ → List Due → List Due
take_due n [] = []
take_due n (x ∷ xs) = if n == 0 then [] else x ∷ take_due (n - 1) xs

unfoldable pub expire_each : ℕ → List Due → Db → Result Db
expire_each now [] db = ok db
expire_each now ((id, j, linked) ∷ rest) db =
    expire_job now id j linked db >>= λ db'. expire_each now rest db'

-- `expireFinancialJobs`, where the sweeper has its lock
unfoldable pub expire_financial_jobs : ℕ → Db → Result Db
unfolding due_rows sort_due insert_due take_due
expire_financial_jobs now db =
    expire_each now (take_due 250 (sort_due (due_rows now db.jobs db))) db

-- `markExpiredCommittedUnknown`
unfoldable pub mark_expired_committed_unknown : (now job_id : ℕ) → DeviceJob → Db → Db
mark_expired_committed_unknown now job_id j db = elim (linked_transfer job_id db) [
  | none ↦ end_job now job_id DeviceJobState.unknown none "LEASE_EXPIRED_AFTER_COMMIT" db
  | some (attempt_id, a, t) ↦
      if is_settled_or_held t.status
      then end_job now job_id (job_state_of_terminal t.status) none
          "LEASE_EXPIRED_AFTER_TRANSFER_TERMINAL" db
      else hold_as_unknown now job_id "LEASE_EXPIRED_AFTER_START_POSSIBLE_COMMIT" j attempt_id a t
          db
]
