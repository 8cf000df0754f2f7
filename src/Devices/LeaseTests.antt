-- ===== src/Devices/LeaseTests.antt =====
-- Runs of the lease at a concrete database, and the theorems about it there.
use Prim.Native.String.{String}
use pay.Shared.{
  ◌⊎◌, ℕ, ◌≡◌, refl, Option, none, some, [], ◌∷◌, Result, ok, err, find, modify, modify_many, arith,
  invalid_state,
}
use pay.Shared.Int.{pos}
use pay.Domain.{NameDecision, matching}
use pay.Samples.{job_in, sim, phone, db_in}
use pay.Store.{Device, Db, TransferStatus, DeviceJob, DeviceJobState, DeviceJobType}
use pay.Withdrawals.{find_by, update_linked_operation}
use pay.Devices.Rules.{finite}
use pay.Devices.Reports.{DeviceJobReport}
use pay.Devices.Report.{linked_transfer}
use pay.Devices.Handling.{report}
use pay.Devices.Expiry.{hold_as_unknown, mark_expired_committed_unknown}
use pay.Devices.Lease.{
  may_have_submitted, with_new_fence, upgrade_legacy, drop_active, lease_best, lease_fresh,
  lease_next, highest_priority, oldest_first, insert_older, can_lease, is_legacy, requeue,
}
use pay.Devices.Fences.{AreBelow}
use pay.Devices.Fencing.{drop_active-fences_out}
use pay.Devices.Locking.{IsLocked, IsFree, lease_next-IsLocked}

leases : Unit {0}
unfolding lease_next lease_fresh lease_best drop_active with_new_fence upgrade_legacy
    mark_expired_committed_unknown hold_as_unknown may_have_submitted highest_priority oldest_first
    insert_older can_lease is_legacy linked_transfer find_by update_linked_operation find modify
    modify_many
leases = tt

-- a balance query that a device had under the fence 9
abbrev query : DeviceJob
query = record (job_in DeviceJobState.leased) { type = DeviceJobType.balance_query }

abbrev free_db : Db
free_db = record (db_in TransferStatus.queued DeviceJobState.queued) {
  devices = (5, record phone { active_ussd_job_id = none }) ∷ [];
}

abbrev query_db : Db
query_db = record free_db { jobs = (1, query) ∷ []; attempts = [] }

abbrev database : Result Db → Db
database (ok db) = db
database (err e) = free_db

abbrev leased_database : Result (Option ℕ × Db) → Db
leased_database (ok (_, db)) = db
leased_database (err e) = free_db

-- a payout whose lease ran out is held as unknown, and nothing else is leased
delivered_expires :
    lease_next 0 200000 600 5 (db_in TransferStatus.queued DeviceJobState.leased)
    ≡ ok (
      none,
      leased_database
          (lease_next 0 200000 600 5 (db_in TransferStatus.queued DeviceJobState.leased)),
    )
unfolding leases
delivered_expires = refl

abbrev stale_report : DeviceJobReport
stale_report = record {
  state = DeviceJobState.failed;
  fencing_token = 9;
  observed_at_ms = finite (pos 150000);
  error_code = "";
}

abbrev compare_names : String → String → NameDecision
compare_names a b = matching

abbrev no_trim : String → String
no_trim s = s

abbrev dropped : Db
dropped = database (drop_active 200000 5 1 (some query) query_db)

drop_active-fences_out_example :
    (DeviceJobState.queued ≡ DeviceJobState.queued)
    × AreBelow dropped.sims dropped.jobs
    × (report compare_names no_trim 200000 600 5 1 stale_report none dropped ≡ err invalid_state)
unfolding leases AreBelow
drop_active-fences_out_example =
    drop_active-fences_out compare_names no_trim 200000 600 5 1 stale_report none query_db dropped
      dropped query (requeue 10 query) (requeue 10 query) sim refl refl refl (omega arith, tt) refl
      refl refl refl (omega arith)

lease_next-IsLocked_example :
    IsLocked 5 1 (leased_database (lease_next 0 200000 600 5 free_db))
    × ((d : Device) × (find 5 free_db.devices ≡ some d)
        × (((d.active_ussd_job_id ≡ some 1)
              × (leased_database (lease_next 0 200000 600 5 free_db) ≡ free_db))
            ⊎ IsFree 200000 d.active_ussd_job_id free_db))
unfolding leases
lease_next-IsLocked_example =
    lease_next-IsLocked 0 200000 600 5 free_db (leased_database (lease_next 0 200000 600 5 free_db))
      1 refl
