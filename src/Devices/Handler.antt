-- ===== src/Devices/Handler.antt =====
-- apps/api/src/devices/device-jobs.service.ts: the body of `report` and `updateTransferForReport`.
use Prim.Native.String.{String}
use pay.Shared.{
  ℕ, Bool, false, not, ◌&&◌, Option, none, some, ◌==◌, if◌then◌else◌, ◌or_else◌, ◌or_default◌, find,
  modify, modify_many, Result, ok, ◌>>=◌, str_eq,
}
use pay.Store.{
  Db, Transfer, TransferAttempt, DeviceJob, DeviceJobState, is_money_moving, SimWallet, SimStatus,
  Device, DeviceStatus, SettlementRequest, SweepExecution,
}
use pay.Withdrawals.{set_transfer, is_settlement_of}
use pay.Devices.Rules.{
  financially_safe_report_state, should_release_device_lock, PrecommitNameDisposition,
  no_disposition, name_uncertain, name_mismatch, is_leased,
}
use pay.Devices.Reports.{DeviceJobReport, proves_commit, is_finished, may_start}
use pay.Devices.Report.{
  transfer_status_for, is_commit_or_unknown, is_failed, is_started, is_unknown, is_committed,
  is_failed_or_unknown, outcome_for, sweep_for, settlement_for, emits_event, emit_if, report_case,
  release_if_failed,
}

-- the rows that follow the transfer: its sweep, its settlement and its attempt
abbrev pub follow_report :
    DeviceJobState → (attempt_id transfer_id observed_at : ℕ) → Option ℕ → String → Db → Db
follow_report state attempt_id id observed possible code db = record db {
  sweeps =
      modify_many (λ (w : SweepExecution). id == w.transfer_id)
        (λ w. record w {
          status = sweep_for state w.status;
          completed_at = if is_failed state then some observed else w.completed_at;
        })
        db.sweeps;
  settlements =
      modify_many (is_settlement_of id)
        (λ (s : SettlementRequest). record s { status = settlement_for state s.status })
        db.settlements;
  attempts =
      modify attempt_id
        (λ (a : TransferAttempt). record a {
          started_at = if is_started state then some observed else a.started_at;
          committed_at =
              if is_commit_or_unknown state
              then possible or_else a.committed_at
              else a.committed_at;
          completed_at = if is_failed_or_unknown state then some observed else a.completed_at;
          outcome = outcome_for state a.outcome;
          error_code = some code;
        })
        db.attempts;
}

-- `updateTransferForReport`
unfoldable pub update_transfer_for_report :
    (job_id sim : ℕ)
    → DeviceJobState
    → (observed_at : ℕ) → (possible_commit_at : Option ℕ) → (error_code : String)
    → Option (ℕ × TransferAttempt × Transfer)
    → Db
    → Result Db
update_transfer_for_report job_id sim state observed possible code none db = ok db
update_transfer_for_report job_id sim state observed possible code (some (attempt_id, a, t)) db = do
  let id = a.transfer_id
  db' ← release_if_failed state id t sim (
      follow_report state attempt_id id observed possible code (
        emit_if (emits_event state) id (transfer_status_for state t.status) (
          set_transfer id
            (λ (r : Transfer). record r {
              status = transfer_status_for state t.status;
              committed_at =
                  if is_commit_or_unknown state
                  then t.committed_at or_else possible
                  else t.committed_at;
              completed_at = if is_failed state then some observed else r.completed_at;
            })
            db)))
  ok (report_case state job_id id t db')

-- the device and the SIM of a report whose time cannot be right
abbrev pub quarantine : (device_id sim : ℕ) → Db → Db
quarantine device_id sim db = record db {
  devices =
      modify device_id (λ (d : Device). record d { status = DeviceStatus.quarantined }) db.devices;
  sims = modify sim (λ (s : SimWallet). record s { status = SimStatus.quarantined }) db.sims;
}

-- `eligible`, `hasReservedLiquidity` and `hasDailyHeadroom`
unfoldable pub is_qualified : (now stale_seconds device_id sim : ℕ) → Db → Bool
is_qualified now stale device_id sim db = elim (find sim db.sims) [
  | none ↦ false
  | some s ↦ elim (find device_id db.devices) [
    | none ↦ false
    | some d ↦ elim (find d.group_id db.groups) [
      | none ↦ false
      | some g ↦ (s.device_id == device_id) && may_start now stale s d g
    ]
  ]
]

-- late evidence on an unknown job: its state and the reservations stay
unfoldable pub keep_evidence :
    ℕ
    → DeviceJob
    → DeviceJobReport
    → (observed_at : ℕ) → Option (ℕ × TransferAttempt × Transfer)
    → Db
    → Db
keep_evidence job_id j r observed none db = db
keep_evidence job_id j r observed (some (attempt_id, a, t)) db =
    let possible : Option ℕ =
      if proves_commit r.state then some (j.committed_at or_default observed) else j.committed_at in
    record db {
      jobs =
          modify job_id
            (λ (k : DeviceJob). record k {
              committed_at = possible;
              error_code = if str_eq r.error_code "" then j.error_code else some r.error_code;
            })
            db.jobs;
      transfers =
          modify a.transfer_id
            (λ (x : Transfer). record x { committed_at = x.committed_at or_else possible })
            db.transfers;
      attempts =
          modify attempt_id
            (λ (x : TransferAttempt). record x { committed_at = x.committed_at or_else possible })
            db.attempts;
    }

-- `effectiveState`
unfoldable pub effective_state :
    PrecommitNameDisposition → DeviceJob → (reported : DeviceJobState) → DeviceJobState
effective_state (name_uncertain e o) j reported = DeviceJobState.cancelled
effective_state (name_mismatch e o) j reported = DeviceJobState.failed
effective_state no_disposition j reported =
    financially_safe_report_state reported j.committed_at j.state (is_money_moving j.type)

-- `possibleCommitAt`
unfoldable pub possible_commit_at :
    DeviceJob → (effective : DeviceJobState) → (observed_at : ℕ) → Option ℕ
possible_commit_at j effective observed =
    if is_money_moving j.type && (is_unknown effective && not (is_leased j.state))
    then some ((j.committed_at or_else j.started_at) or_default observed)
    else if is_committed effective
    then some observed
    else j.committed_at

abbrev pub report_job :
    DeviceJobState → (observed_at : ℕ) → Option ℕ → String → DeviceJob → DeviceJob
report_job state observed possible code j = record j {
  state = state;
  started_at = if is_started state then some observed else j.started_at;
  committed_at = possible;
  completed_at = if is_finished state then some observed else j.completed_at;
  error_code = some code;
}

-- `activeUssdJobId` is cleared only where it names this job
abbrev pub clear_lock : ℕ → Device → Device
clear_lock job_id d = record d {
  active_ussd_job_id = elim d.active_ussd_job_id [
    | none ↦ none
    | some k ↦ if k == job_id then none else some k
  ];
}

-- an admissible report: the job, its transfer and its device's lock move together
unfoldable pub move_job :
    (device_id job_id : ℕ)
    → DeviceJob
    → DeviceJobReport
    → (observed_at : ℕ) → PrecommitNameDisposition
    → Option (ℕ × TransferAttempt × Transfer)
    → Db
    → Result Db
move_job device_id job_id j r observed n linked db = do
  let state = effective_state n j r.state
  let possible = possible_commit_at j state observed
  db' ←
      update_transfer_for_report job_id j.sim_wallet_id state observed possible r.error_code linked
        (record db {
          jobs = modify job_id (report_job state observed possible r.error_code) db.jobs;
        })
  ok (
      if should_release_device_lock state
      then record db' { devices = modify device_id (clear_lock job_id) db'.devices }
      else db')

-- the device that a job is given to
abbrev pub is_device : Option ℕ → ℕ → Bool
is_device none id = false
is_device (some d) id = d == id
