-- ===== src/Devices/Lease.antt =====
-- apps/api/src/devices/device-jobs.service.ts: `leaseNext`, by which a device gets its next job, and
-- the two renewals of a lease. The signed envelope is made of the job that is returned here.
use pay.Shared.{
  ℕ, ◌+◌, ◌*◌, ◌-◌, Bool, true, false, not, ◌&&◌, ◌||◌, Option, none, some, [], ◌∷◌, ◌==◌, ltb, leb,
  if◌then◌else◌, is_some, Table, find, modify, modify_many, Result, ok, err, ◌>>=◌, ◌>>◌, require,
  or_throw, str_eq, record_not_found, invalid_state,
}
use pay.Store.{
  Db, TransferAttempt, DeviceJob, DeviceJobState, SimWallet, SimStatus, Device, AuditAction,
  is_active_job, is_money_moving, is_online, is_active_sim,
}
use pay.Withdrawals.{audited, current_profile_version}
use pay.Devices.Rules.{is_leased}
use pay.Devices.Reports.{is_attempt_of, is_recent}
use pay.Devices.Report.{is_started}
use pay.Devices.Handler.{is_device}
use pay.Devices.Expiry.{mark_expired_committed_unknown}

abbrev pub is_after : ℕ → Option ℕ → Bool
is_after now none = false
is_after now (some t) = ltb now t

abbrev is_queued : DeviceJobState → Bool
is_queued DeviceJobState.queued = true
is_queued _ = false

abbrev is_provider_pending : DeviceJobState → Bool
is_provider_pending DeviceJobState.provider_pending = true
is_provider_pending _ = false

-- a delivered job whose lease has run out: its PIN may have been entered
unfoldable pub may_have_submitted : DeviceJob → Bool
may_have_submitted j =
    (is_some j.committed_at || is_provider_pending j.state)
    || ((is_leased j.state || is_started j.state) && is_money_moving j.type)

-- `allocateFence` and the job and attempt that get the new fence
unfoldable pub with_new_fence : ℕ → (sim : ℕ) → (ℕ → DeviceJob → DeviceJob) → Db → Result Db
with_new_fence job_id sim f db = do
  s ← or_throw (find sim db.sims) record_not_found
  let fence = s.next_fencing_token + 1
  ok (record db {
    sims = modify sim (λ (x : SimWallet). record x { next_fencing_token = fence }) db.sims;
    jobs = modify job_id (f fence) db.jobs;
    attempts =
        modify_many (is_attempt_of job_id)
          (λ (a : TransferAttempt). record a { fencing_token = fence }) db.attempts;
  })

abbrev pub requeue : ℕ → DeviceJob → DeviceJob
requeue fence j = record j {
  state = DeviceJobState.queued;
  device_id = none;
  lease_owner = none;
  lease_expires_at = none;
  attempt = j.attempt + 1;
  fencing_token = fence;
}

abbrev pub lock_device : ℕ → Option ℕ → Db → Db
lock_device device_id job_id db = record db {
  devices = modify device_id (λ (d : Device). record d { active_ussd_job_id = job_id }) db.devices;
}

-- the job that the device still holds, once its lease has run out
unfoldable pub drop_active : (now device_id job_id : ℕ) → Option DeviceJob → Db → Result Db
drop_active now device_id job_id none db = ok (lock_device device_id none db)
drop_active now device_id job_id (some j) db =
    if may_have_submitted j
    then ok (lock_device device_id none (mark_expired_committed_unknown now job_id j db))
    else (with_new_fence job_id j.sim_wallet_id requeue db >>= λ db'.
        ok (lock_device device_id none db'))

abbrev pub upgrade : ℕ → DeviceJob → DeviceJob
upgrade fence j = record j { profile_version = current_profile_version; fencing_token = fence }

abbrev sim_of : DeviceJob → Db → Option SimWallet
sim_of j db = find j.sim_wallet_id db.sims

-- a queued job of the device that was signed for an older profile
unfoldable pub is_legacy : (now device_id : ℕ) → Db → DeviceJob → Bool
is_legacy now device_id db j =
    (is_queued j.state && not (str_eq j.profile_version current_profile_version))
    && (ltb now j.expires_at
        && elim (sim_of j db) [ none ↦ false | some s ↦ s.device_id == device_id ])

unfoldable pub insert_older : ℕ × DeviceJob → Table DeviceJob → Table DeviceJob
insert_older x [] = x ∷ []
insert_older x (y ∷ ys) =
    if leb x.1.created_at y.1.created_at then x ∷ y ∷ ys else y ∷ insert_older x ys

-- the rows that pass a test, the oldest first
unfoldable pub oldest_first : (DeviceJob → Bool) → Table DeviceJob → Table DeviceJob
unfolding insert_older
oldest_first p [] = []
oldest_first p (x ∷ xs) = if p x.1 then insert_older x (oldest_first p xs) else oldest_first p xs

unfoldable pub upgrade_legacy : ℕ → ℕ → Table DeviceJob → Db → Result Db
upgrade_legacy system count [] db = ok db
upgrade_legacy system count ((id, j) ∷ rest) db =
    if count == 0
    then ok db
    else (with_new_fence id j.sim_wallet_id upgrade db >>= λ db'.
        upgrade_legacy system (count - 1) rest
          (audited system AuditAction.profile_upgraded_precommit id "" db'))

abbrev is_diagnosable : SimStatus → Bool
is_diagnosable SimStatus.pending = true
is_diagnosable SimStatus.active = true
is_diagnosable SimStatus.payout_stale = true
is_diagnosable _ = false

-- the SIM serves a diagnostic job as long as it is not taken out, a payout only when it is active
-- and its balance is fresh
abbrev sim_serves : (now stale device_id : ℕ) → Bool → Option SimWallet → Bool
sim_serves now stale device_id money none = false
sim_serves now stale device_id true (some s) =
    (s.device_id == device_id)
    && (is_active_sim s.status && is_recent now (stale * 1000) s.last_balance_at)
sim_serves now stale device_id false (some s) =
    (s.device_id == device_id) && is_diagnosable s.status

-- the `where` of the next job
unfoldable pub can_lease : (now stale device_id : ℕ) → Db → DeviceJob → Bool
can_lease now stale device_id db j =
    (is_queued j.state && str_eq j.profile_version current_profile_version)
    && (ltb now j.expires_at
        && ((not (is_some j.device_id) || is_device j.device_id device_id)
            && sim_serves now stale device_id (is_money_moving j.type) (sim_of j db)))

-- the first row of the highest priority
unfoldable pub highest_priority : Table DeviceJob → Option (ℕ × DeviceJob)
highest_priority [] = none
highest_priority (x ∷ xs) = elim (highest_priority xs) [
  | none ↦ some x
  | some y ↦ if leb y.1.priority x.1.priority then some x else some y
]

abbrev lease : (now device_id : ℕ) → DeviceJob → DeviceJob
lease now device_id j = record j {
  state = DeviceJobState.leased;
  device_id = some device_id;
  lease_owner = some device_id;
  lease_expires_at = some (now + 45000);
}

abbrev pub lease_row : (now device_id : ℕ) → Option (ℕ × DeviceJob) → Db → Option ℕ × Db
lease_row now device_id none db = (none, db)
lease_row now device_id (some (id, _)) db = (
  some id,
  lock_device device_id (some id) (record db { jobs = modify id (lease now device_id) db.jobs }),
)

-- the job to lease, and the database with it leased
unfoldable pub lease_best : (now stale device_id : ℕ) → Db → Option ℕ × Db
lease_best now stale device_id db =
    lease_row now device_id
      (highest_priority (oldest_first (can_lease now stale device_id db) db.jobs)) db

-- upgrades of old jobs, then the next one; `system` is the actor of the upgrades
unfoldable pub lease_fresh : (system now stale device_id : ℕ) → Db → Result (Option ℕ × Db)
lease_fresh system now stale device_id db =
    upgrade_legacy system 100 (oldest_first (is_legacy now device_id db) db.jobs) db >>= λ db'.
    ok (lease_best now stale device_id db')

abbrev pub holds_lease : ℕ → Option DeviceJob → Bool
holds_lease now none = false
holds_lease now (some j) = is_after now j.lease_expires_at

-- the job that the device's lock names, while its lease lasts, or else a fresh one
abbrev pub lease_after :
    (system now stale device_id : ℕ) → (active : Option ℕ) → Db → Result (Option ℕ × Db)
lease_after system now stale device_id none db = lease_fresh system now stale device_id db
lease_after system now stale device_id (some job_id) db =
    if holds_lease now (find job_id db.jobs)
    then ok (some job_id, db)
    else (drop_active now device_id job_id (find job_id db.jobs) db >>= λ db'.
        lease_fresh system now stale device_id db')

-- `leaseNext`
unfoldable pub lease_next : (system now stale device_id : ℕ) → Db → Result (Option ℕ × Db)
lease_next system now stale device_id db = do
  d ← or_throw (find device_id db.devices) record_not_found
  (if not (is_online d.status) || (not d.last_permissions_ok || not d.last_accessibility_ok)
      then ok (none, db)
      else lease_after system now stale device_id d.active_ussd_job_id db)

abbrev extend : ℕ → DeviceJob → DeviceJob
extend now j = record j { lease_expires_at = some (now + 45000) }

-- `renew`
unfoldable pub renew : (now device_id job_id fence : ℕ) → Db → Result Db
renew now device_id job_id fence db = do
  j ← or_throw (find job_id db.jobs) invalid_state
  require (is_device j.device_id device_id && ((j.fencing_token == fence) && is_active_job j.state))
      invalid_state
  ok (record db { jobs = modify job_id (extend now) db.jobs })

abbrev agrees : Option ℕ → ℕ → Bool
agrees none x = true
agrees (some y) x = x == y

-- `renewActiveForConnection`: the renewed job, where the device holds one
unfoldable pub renew_active :
    (now device_id : ℕ) → (expected_job expected_fence : Option ℕ) → Db → Result (Option ℕ × Db)
renew_active now device_id expected_job expected_fence db = elim (find device_id db.devices) [
  | none ↦ ok (none, db)
  | some d ↦ elim d.active_ussd_job_id [
    | none ↦ ok (none, db)
    | some job_id ↦ elim (find job_id db.jobs) [
      | none ↦ ok (none, db)
      | some j ↦
          if not (is_active_job j.state)
          then ok (none, db)
          else if not (agrees expected_job job_id) || not (agrees expected_fence j.fencing_token)
          then err invalid_state
          else ok (some job_id, record db { jobs = modify job_id (extend now) db.jobs })
    ]
  ]
]
