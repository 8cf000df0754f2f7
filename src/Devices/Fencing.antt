-- ===== src/Devices/Fencing.antt =====
-- apps/api/src/devices/device-jobs.service.ts: the fence of a job that goes back to the queue.
use Prim.Native.String.{String}
use pay.Shared.{
  &&-false, ℕ, ◌+◌, ◌≤◌, ◌<◌, ◌≡◌, refl, sym, ap, ◌∙◌, inl, inr, false, Option, some, ◌==◌, arith,
  find, find-modify-some, ok, err, or_throw, >>=-eq-ok, or_throw-eq-ok, ok_injective,
  some_injective, if-cases, subst, invalid_state,
}
use pay.Domain.{NameDecision}
use pay.Store.{Db, DeviceJob, DeviceJobState, SimWallet}
use pay.Devices.Reports.{DeviceJobReport, SpoolContext}
use pay.Devices.Handler.{is_device}
use pay.Devices.Handling.{report}
use pay.Devices.Fences.{AreBelow, IsBelow, find-IsBelow, with_new_fence-AreBelow}
use pay.Devices.Lease.{may_have_submitted, with_new_fence, requeue, drop_active}

requeued :
    (now device_id job_id : ℕ) (db db' : Db) (j k : DeviceJob) (s : SimWallet)
    → find job_id db.jobs ≡ some j
    → find j.sim_wallet_id db.sims ≡ some s
    → may_have_submitted j ≡ false
    → drop_active now device_id job_id (some j) db ≡ ok db'
    → find job_id db'.jobs ≡ some k
    → k ≡ requeue (s.next_fencing_token + 1) j
unfolding drop_active with_new_fence
requeued now device_id job_id db db' j k s row wallet kept h found =
    elim (if-cases (may_have_submitted j) _ _ _ h) [
      | inl (held, _) ↦ cc
      | inr (_, e) ↦
          let (x, fenced, last) =
            >>=-eq-ok (with_new_fence job_id j.sim_wallet_id requeue db) _ e in
          let (s', at, done) = >>=-eq-ok (or_throw (find j.sim_wallet_id db.sims) _) _ fenced in
          let same = some_injective (sym wallet ∙ or_throw-eq-ok _ _ at) in
          some_injective (
            sym found
            ∙ ap (λ (y : Db). find job_id y.jobs) (sym (ok_injective last))
            ∙ ap (λ (y : Db). find job_id y.jobs) (sym (ok_injective done))
            ∙ find-modify-some job_id (requeue (s'.next_fencing_token + 1)) db.jobs row)
          ∙ ap (λ (y : SimWallet). requeue (y.next_fencing_token + 1) j) (sym same)
    ]

fence-differs : (a b : ℕ) → a < b → (b == a) ≡ false
fence-differs a b h = ground arith

refuses :
    (compare : String → String → NameDecision) (trim : String → String)
    (now stale device_id job_id : ℕ) (r : DeviceJobReport) (spool : Option SpoolContext) (db : Db)
    (j : DeviceJob)
    → find job_id db.jobs ≡ some j
    → (j.fencing_token == r.fencing_token) ≡ false
    → report compare trim now stale device_id job_id r spool db ≡ err invalid_state
unfolding report
refuses compare trim now stale device_id job_id r spool db j row differs =
    rw (row, differs, &&-false (is_device j.device_id device_id)) refl

requeued-AreBelow :
    (now device_id job_id : ℕ) (db db' : Db) (j : DeviceJob)
    → AreBelow db.sims db.jobs
    → find job_id db.jobs ≡ some j
    → may_have_submitted j ≡ false
    → drop_active now device_id job_id (some j) db ≡ ok db'
    → AreBelow db'.sims db'.jobs
unfolding drop_active
requeued-AreBelow now device_id job_id db db' j below row kept h =
    elim (if-cases (may_have_submitted j) _ _ _ h) [
      | inl (held, _) ↦ cc
      | inr (_, e) ↦
          let (x, fenced, last) =
            >>=-eq-ok (with_new_fence job_id j.sim_wallet_id requeue db) _ e in
          subst (λ (y : Db). AreBelow y.sims y.jobs) (ok_injective last)
            (with_new_fence-AreBelow job_id j.sim_wallet_id requeue db x j below row (λ _. refl)
              (λ _. refl) fenced)
    ]

-- A job whose lease ran out before anything was submitted goes back to the queue, where no job's
-- fence was above the counter of its SIM, and none is afterwards. From then on every report under
-- the fence that its device was given is refused, whoever holds the job by then, as long as the
-- fence that the job has is not below the one it got here.
pub drop_active-fences_out :
    (compare : String → String → NameDecision) (trim : String → String)
    (now stale device_id job_id : ℕ) (r : DeviceJobReport) (spool : Option SpoolContext)
    (db db' later : Db) (j k l : DeviceJob) (s : SimWallet)
    → find job_id db.jobs ≡ some j
    → find j.sim_wallet_id db.sims ≡ some s
    → may_have_submitted j ≡ false
    → AreBelow db.sims db.jobs
    → r.fencing_token ≡ j.fencing_token
    → drop_active now device_id job_id (some j) db ≡ ok db'
    → find job_id db'.jobs ≡ some k
    → find job_id later.jobs ≡ some l
    → k.fencing_token ≤ l.fencing_token
    → (k.state ≡ DeviceJobState.queued)
      × AreBelow db'.sims db'.jobs
      × (report compare trim now stale device_id job_id r spool later ≡ err invalid_state)
drop_active-fences_out compare trim now stale device_id job_id r spool db db' later j k l s row
      wallet kept below old h found held above =
    let e = requeued now device_id job_id db db' j k s row wallet kept h found in
    let fence : k.fencing_token ≡ s.next_fencing_token + 1 = rw e refl in
    let under : j.fencing_token ≤ s.next_fencing_token =
      subst (λ (o : Option SimWallet). IsBelow o j) wallet
        (find-IsBelow job_id db.sims db.jobs j below row) in
    (
      rw e refl,
      requeued-AreBelow now device_id job_id db db' j below row kept h,
      refuses compare trim now stale device_id job_id r spool later l held
          (fence-differs r.fencing_token l.fencing_token (omega (arith, fence, old, under, above))),
    )
