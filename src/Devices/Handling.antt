-- ===== src/Devices/Handling.antt =====
-- apps/api/src/devices/device-jobs.service.ts: `report`, from its guards to the inbox marker. `now`
-- is the server's time at reception, `stale` the policy's age limit of a balance in seconds.
use Prim.Native.String.{String}
use pay.Shared.{
  ℕ, Bool, true, not, ◌&&◌, ◌||◌, Option, none, some, ◌==◌, if◌then◌else◌, is_some, find, Result,
  ok, err, ◌>>=◌, ◌>>◌, require, or_throw, invalid_state, financial_status_requires_spool,
  duplicate_event_conflict, device_not_qualified,
}
use pay.Domain.{NameDecision}
use pay.Store.{Db, Transfer, TransferAttempt, DeviceJob, is_money_moving}
use pay.Devices.Rules.{
  allowed_transition, bounded_job_observed_at, PrecommitNameDisposition, no_disposition,
  classify_precommit_name, InboxDisposition, process, duplicate, conflict,
  job_status_inbox_disposition,
}
use pay.Devices.Reports.{
  DeviceJobReport, SpoolContext, same_state, is_late_evidence, inbox_hash, operation_id,
  persist_spool_outcome,
}
use pay.Devices.Report.{linked_transfer, is_started, is_unknown}
use pay.Devices.Handler.{is_device, is_qualified, keep_evidence, move_job, quarantine}

-- `job.transferAttempt?.transfer.expectedName ?? null`
abbrev stored_name : Option (ℕ × TransferAttempt × Transfer) → Option String
stored_name none = none
stored_name (some (_, a, t)) = some t.expected_name

-- an event goes by the inbox; a report without one is always processed
unfoldable pub spool_disposition : Option SpoolContext → Db → InboxDisposition
spool_disposition none db = process
spool_disposition (some c) db =
    job_status_inbox_disposition (inbox_hash c.event_id db.inbox) c.payload_hash

-- an event names the operation of the job that was signed
unfoldable pub names_operation : ℕ → DeviceJob → Option SpoolContext → Bool
names_operation job_id j none = true
names_operation job_id j (some c) = c.financial_operation_id == operation_id job_id j

-- a duplicate is passed over, a conflict is refused
abbrev pub by_disposition : InboxDisposition → Db → Result Db → Result Db
by_disposition duplicate db handled = ok db
by_disposition conflict db handled = err duplicate_event_conflict
by_disposition process db handled = handled

-- The comparison of the name normalizer, and the text's `trim`.
module _ (compare_person_names : String → String → NameDecision) (trim : String → String) where
  -- `precommitNameDisposition`
  unfoldable pub name_disposition :
      DeviceJob
      → Option (ℕ × TransferAttempt × Transfer)
      → DeviceJobReport
      → Option SpoolContext
      → PrecommitNameDisposition
  name_disposition j linked r none = no_disposition
  name_disposition j linked r (some c) = classify_precommit_name compare_person_names trim (record {
    prior_state = j.state;
    committed_at = j.committed_at;
    reported_state = r.state;
    error_code = r.error_code;
    stored_expected_name = stored_name linked;
    reported_expected_name = c.expected_receiver_name;
    provider_receiver_name = c.provider_receiver_name;
  })

  -- the report of a job after the guards on its lease and its event
  unfoldable pub apply_report :
      (now stale device_id job_id : ℕ)
      → DeviceJob
      → DeviceJobReport
      → Option SpoolContext
      → Db
      → Result Db
  apply_report now stale device_id job_id j r spool db =
      let linked = linked_transfer job_id db in
      let n = name_disposition j linked r spool in
      let time = bounded_job_observed_at r.observed_at_ms now j.created_at in
      let db' : Db = if time.clock_invalid then quarantine device_id j.sim_wallet_id db else db in
      if is_unknown j.state && (is_some linked && is_late_evidence r.state)
      then ok (
          persist_spool_outcome job_id linked spool n
            (keep_evidence job_id j r time.observed_at linked db'))
      else if not (allowed_transition j.state r.state)
      then (if same_state j.state r.state
          then ok (persist_spool_outcome job_id linked spool n db')
          else err invalid_state)
      else if (is_started r.state && is_money_moving j.type)
          && not (is_qualified now stale device_id j.sim_wallet_id db')
      then err device_not_qualified
      else (move_job device_id job_id j r time.observed_at n linked db' >>= λ moved.
          ok (persist_spool_outcome job_id linked spool n moved))

  -- `report`
  unfoldable pub report :
      (now stale device_id job_id : ℕ) → DeviceJobReport → Option SpoolContext → Db → Result Db
  report now stale device_id job_id r spool db = do
    j ← or_throw (find job_id db.jobs) invalid_state
    require (is_device j.device_id device_id && (j.fencing_token == r.fencing_token)) invalid_state
    require (is_some spool || not (is_money_moving j.type)) financial_status_requires_spool
    by_disposition (spool_disposition spool db) db (
        if names_operation job_id j spool
        then apply_report now stale device_id job_id j r spool db
        else err invalid_state)
