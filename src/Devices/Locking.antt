-- ===== src/Devices/Locking.antt =====
-- apps/api/src/devices/device-jobs.service.ts: the lock that `leaseNext` leaves on the device.
use pay.Shared.{
  arith, ◌≤◌, sym, subst, false, ◌⊎◌, ℕ, ◌-◌, ◌≡◌, refl, ap, ◌∙◌, inl, inr, not, ◌||◌, Option, none,
  some, [], ◌∷◌, ◌==◌, Table, find, find-modify-some, ok, or_throw, >>=-eq-ok, or_throw-eq-ok,
  ok_injective, ◌≢◌, if-cases, if-both, Option-cases,
}
use pay.Store.{
  Db, DeviceJob, Device, SettlementRequest, SweepExecution, AuditAction, is_settled_or_held,
  is_online,
}
use pay.Withdrawals.{
  LinkedStatus, update_settlement, update_sweep, update_linked_operation, audited,
}
use pay.Devices.Lease.{is_after}
use pay.Devices.Report.{linked_transfer}
use pay.Devices.Expiry.{hold_as_unknown, mark_expired_committed_unknown}
use pay.Devices.Lease.{
  may_have_submitted, with_new_fence, requeue, upgrade, upgrade_legacy, drop_active, lease_row,
  lease_after, lease_row, lease_after, lease_best, lease_fresh, lease_next, highest_priority,
  oldest_first, can_lease, is_legacy, holds_lease,
}

devices-settlement :
    (s : LinkedStatus) (o : Option (ℕ × SettlementRequest)) (db : Db)
    → (update_settlement s o db).devices ≡ db.devices
devices-settlement s none db = refl
devices-settlement s (some (i, r)) db = refl

devices-sweep :
    (now : ℕ) (s : LinkedStatus) (o : Option (ℕ × SweepExecution)) (db : Db)
    → (update_sweep now s o db).devices ≡ db.devices
devices-sweep now s none db = refl
devices-sweep now s (some (i, r)) db = refl

devices-linked :
    (now id : ℕ) (s : LinkedStatus) (db : Db)
    → (update_linked_operation now id s db).devices ≡ db.devices
unfolding update_linked_operation
devices-linked now id s db = devices-sweep now s _ _ ∙ devices-settlement s _ _

devices-marked :
    (now job_id : ℕ) (j : DeviceJob) (db : Db)
    → (mark_expired_committed_unknown now job_id j db).devices ≡ db.devices
unfolding mark_expired_committed_unknown hold_as_unknown
devices-marked now job_id j db = elim (Option-cases (linked_transfer job_id db)) [
  | inl e ↦ rw (mark_expired_committed_unknown, e) refl
  | inr ((i, a, t), e) ↦
      rw (mark_expired_committed_unknown, e)
        (if-both (λ (x : Db). x.devices ≡ db.devices) (is_settled_or_held t.status) _ _ refl
          (devices-linked now a.transfer_id LinkedStatus.unknown _))
]

devices-fence :
    (job_id sim : ℕ) (f : ℕ → DeviceJob → DeviceJob) (db db' : Db)
    → with_new_fence job_id sim f db ≡ ok db'
    → db'.devices ≡ db.devices
unfolding with_new_fence
devices-fence job_id sim f db db' h =
    let (s, at, done) = >>=-eq-ok (or_throw (find sim db.sims) _) _ h in
    rw (← ok_injective done) refl

devices-upgraded :
    (system count : ℕ) (rows : Table DeviceJob) (db db' : Db)
    → upgrade_legacy system count rows db ≡ ok db'
    → db'.devices ≡ db.devices
unfolding upgrade_legacy
devices-upgraded system count [] db db' h = rw (← ok_injective h) refl
devices-upgraded system count ((i, j) ∷ rest) db db' h = elim (if-cases (count == 0) _ _ _ h) [
  | inl (_, e) ↦ rw (← ok_injective e) refl
  | inr (_, e) ↦
      let (x, fenced, more) = >>=-eq-ok (with_new_fence i j.sim_wallet_id upgrade db) _ e in
      devices-upgraded system (count - 1) rest
        (audited system AuditAction.profile_upgraded_precommit i "" x) db' more
      ∙ devices-fence i j.sim_wallet_id upgrade db x fenced
]

none-not_some : (n : ℕ) → none ≢ some n
none-not_some n h = cc

-- The device's row holds the lock for a job.
unfoldable pub IsLocked : ℕ → ℕ → Db → Type 0
IsLocked device_id job_id db =
    (d : Device) × (find device_id db.devices ≡ some d) × (d.active_ussd_job_id ≡ some job_id)

-- The lock is free: it names no job, or it names one that is gone, that has no lease, or whose lease
-- has ended.
abbrev pub IsFree : ℕ → Option ℕ → Db → Type 0
IsFree now active db =
    (active ≡ none)
    ⊎ ((k : ℕ) × (active ≡ some k)
        × ((find k db.jobs ≡ none)
            ⊎ ((j : DeviceJob) × (find k db.jobs ≡ some j)
                × ((j.lease_expires_at ≡ none)
                    ⊎ ((ends : ℕ) × (j.lease_expires_at ≡ some ends) × (ends ≤ now))))))

not_after :
    (now : ℕ) (o : Option ℕ)
    → is_after now o ≡ false
    → (o ≡ none) ⊎ ((ends : ℕ) × (o ≡ some ends) × (ends ≤ now))
not_after now none h = inl refl
not_after now (some ends) h = inr (ends, refl, ground arith)

holds_lease-IsFree :
    (now k : ℕ) (active : Option ℕ) (db : Db)
    → active ≡ some k
    → holds_lease now (find k db.jobs) ≡ false
    → IsFree now active db
holds_lease-IsFree now k active db named h = elim (Option-cases (find k db.jobs)) [
  | inl e ↦ inr (k, named, inl e)
  | inr (j, e) ↦ inr (k, named, inr (j, e, not_after now j.lease_expires_at (rw e at h)))
]

module _ (system now stale device_id : ℕ) where
  IsLocked-row :
      (o : Option (ℕ × DeviceJob)) (db db' : Db) (d : Device) (job_id : ℕ)
      → find device_id db.devices ≡ some d
      → lease_row now device_id o db ≡ (some job_id, db')
      → IsLocked device_id job_id db'
  unfolding IsLocked
  IsLocked-row none db db' d job_id row h =
      elim (none-not_some job_id (ap (λ (x : Option ℕ × Db). x.0) h)) [ ]
  IsLocked-row (some (i, j)) db db' d job_id row h =
      rw (← ap (λ (x : Option ℕ × Db). x.1) h)
        (_, find-modify-some device_id _ db.devices row, ap (λ (x : Option ℕ × Db). x.0) h)

  IsLocked-best :
      (db db' : Db) (d : Device) (job_id : ℕ)
      → find device_id db.devices ≡ some d
      → lease_best now stale device_id db ≡ (some job_id, db')
      → IsLocked device_id job_id db'
  unfolding lease_best IsLocked
  IsLocked-best db db' d job_id row h =
      IsLocked-row (highest_priority (oldest_first (can_lease now stale device_id db) db.jobs)) db
        db' d job_id row h

  IsLocked-fresh :
      (db db' : Db) (d : Device) (job_id : ℕ)
      → find device_id db.devices ≡ some d
      → lease_fresh system now stale device_id db ≡ ok (some job_id, db')
      → IsLocked device_id job_id db'
  unfolding lease_fresh
  IsLocked-fresh db db' d job_id row h =
      let (x, upgraded, best) =
        >>=-eq-ok (upgrade_legacy system 100 (oldest_first (is_legacy now device_id db) db.jobs) db)
          _ h in
      IsLocked-best x db' d job_id
        (ap (find device_id) (devices-upgraded system 100 _ db x upgraded) ∙ row)
        (ok_injective best)

  -- the row of the device after its last job was dropped
  dropped-row :
      (job_id : ℕ) (o : Option DeviceJob) (db db' : Db) (d : Device)
      → find device_id db.devices ≡ some d
      → drop_active now device_id job_id o db ≡ ok db'
      → (e : Device) × (find device_id db'.devices ≡ some e)
  unfolding drop_active
  dropped-row job_id none db db' d row h =
      rw (← ok_injective h) (_, find-modify-some device_id _ db.devices row)
  dropped-row job_id (some j) db db' d row h = elim (if-cases (may_have_submitted j) _ _ _ h) [
    | inl (_, e) ↦
        let marked = mark_expired_committed_unknown now job_id j db in
        rw (← ok_injective e) (
          _,
          find-modify-some device_id _ marked.devices
              (ap (find device_id) (devices-marked now job_id j db) ∙ row),
        )
    | inr (_, e) ↦
        let (x, fenced, last) = >>=-eq-ok (with_new_fence job_id j.sim_wallet_id requeue db) _ e in
        rw (← ok_injective last) (
          _,
          find-modify-some device_id _ x.devices (
              ap (find device_id) (devices-fence job_id j.sim_wallet_id requeue db x fenced) ∙ row),
        )
  ]

  IsLocked-after :
      (active : Option ℕ) (db db' : Db) (d : Device) (job_id : ℕ)
      → find device_id db.devices ≡ some d
      → d.active_ussd_job_id ≡ active
      → lease_after system now stale device_id active db ≡ ok (some job_id, db')
      → IsLocked device_id job_id db'
        × (((d.active_ussd_job_id ≡ some job_id) × (db' ≡ db)) ⊎ IsFree now d.active_ussd_job_id db)
  unfolding IsLocked
  IsLocked-after none db db' d job_id row lock h =
      (IsLocked-fresh db db' d job_id row h, inr (inl lock))
  IsLocked-after (some k) db db' d job_id row lock h =
      elim (if-cases (holds_lease now (find k db.jobs)) _ _ _ h) [
        | inl (_, e) ↦
            let same = ok_injective e in
            let kept = ap (λ (x : Option ℕ × Db). x.1) same in
            let named = lock ∙ ap (λ (x : Option ℕ × Db). x.0) same in
            (
              subst (λ (x : Db). IsLocked device_id job_id x) kept (d, row, named),
              inl (named, sym kept),
            )
        | inr (ended, e) ↦
            let (x, dropped, fresh) =
              >>=-eq-ok (drop_active now device_id k (find k db.jobs) db) _ e in
            let (d', row') = dropped-row k (find k db.jobs) db x d row dropped in
            (
              IsLocked-fresh x db' d' job_id row' fresh,
              inr (holds_lease-IsFree now k d.active_ussd_job_id db lock ended),
            )
      ]

  -- Whenever `leaseNext` hands a job to a device, the lock in the device's row names that job
  -- afterwards, and one job at a time is in the USSD session: either the lock named this very job
  -- before and nothing changes, or the lock was free, which means that it named no job or one that
  -- is gone, without a lease, or with a lease that has ended.
  pub lease_next-IsLocked :
      (db db' : Db) (job_id : ℕ)
      → lease_next system now stale device_id db ≡ ok (some job_id, db')
      → IsLocked device_id job_id db'
        × ((d : Device) × (find device_id db.devices ≡ some d)
            × (((d.active_ussd_job_id ≡ some job_id) × (db' ≡ db))
                ⊎ IsFree now d.active_ussd_job_id db))
  unfolding lease_next
  lease_next-IsLocked db db' job_id h =
      let (d, at, rest) = >>=-eq-ok (or_throw (find device_id db.devices) _) _ h in
      let row = or_throw-eq-ok _ _ at in
      elim (if-cases (not (is_online d.status) || _) _ _ _ rest) [
        | inl (_, e) ↦
            elim (none-not_some job_id (ap (λ (x : Option ℕ × Db). x.0) (ok_injective e))) [ ]
        | inr (_, e) ↦
            let (locked, before) = IsLocked-after d.active_ussd_job_id db db' d job_id row refl e in
            (locked, (d, row, before))
      ]
