-- ===== src/Devices/Safety.antt =====
-- apps/api/src/devices/device-jobs.service.ts: which states `report` can bring about, when money may
-- come back, and a second delivery of the same event.
use Prim.Native.String.{String}
use pay.Shared.{
  ◌⊎◌, ℕ, ◌≡◌, refl, sym, ◌∙◌, ◌≢◌, inl, inr, Bool, true, false, not, ◌&&◌, ◌||◌, Option, none,
  some, List, ◌==◌, is_some, arith, find, ok, some_injective, ==_refl,
}
use pay.Domain.{NameDecision}
use pay.Store.{Db, DeviceJob, DeviceJobState, is_money_moving, InboxEvent}
use pay.Devices.Rules.{
  financially_safe_report_state, PrecommitNameDisposition, no_disposition, name_uncertain,
  name_mismatch, duplicate, job_status_inbox_disposition, is_failed_or_cancelled,
}
use pay.Devices.Reports.{DeviceJobReport, SpoolContext, inbox_hash}
use pay.Devices.Handler.{is_device, effective_state}
use pay.Devices.Handling.{spool_disposition, report}
use pay.Devices.Frames.{SameFunds, SameFunds-refl}
use pay.Devices.Cases.{named, report-cases}
use pay.Devices.Steps.{JobStep, SameLease, applied-step, marker}

financially_safe-not_succeeded :
    (reported : DeviceJobState) (committed_at : Option ℕ) (prior : DeviceJobState) (money : Bool)
    → financially_safe_report_state reported committed_at prior money ≢ DeviceJobState.succeeded
unfolding financially_safe_report_state
financially_safe-not_succeeded reported committed_at prior money = ground arith

-- Whatever a handset reports of a money-moving job, the state that takes effect is not `succeeded`,
-- and where it is `failed` or `cancelled` the job was still leased and had no commit time.
pub financially_safe-IsSafe :
    (reported : DeviceJobState) (committed_at : Option ℕ) (prior : DeviceJobState)
    → let e = financially_safe_report_state reported committed_at prior true in
      (e ≢ DeviceJobState.succeeded)
      × ((is_failed_or_cancelled e ≡ false)
          ⊎ ((committed_at ≡ none) × (prior ≡ DeviceJobState.leased)))
unfolding financially_safe_report_state
financially_safe-IsSafe reported committed_at prior =
    (financially_safe-not_succeeded reported committed_at prior true, ground arith)

failed-IsFinal : (s : DeviceJobState) → s ≡ DeviceJobState.failed → is_failed_or_cancelled s ≢ false
failed-IsFinal s e h = ground arith

-- A name disposition that is not a mismatch leaves a started money-moving job out of `failed`.
effective_state-IsHeld :
    (n : PrecommitNameDisposition) (j : DeviceJob) (reported : DeviceJobState)
    → is_money_moving j.type ≡ true
    → j.state ≢ DeviceJobState.leased
    → ((e o : String) → n ≢ name_mismatch e o)
    → effective_state n j reported ≢ DeviceJobState.failed
unfolding effective_state
effective_state-IsHeld no_disposition j reported money started same f =
    elim (financially_safe-IsSafe reported j.committed_at j.state).1 [
      | inl other ↦ failed-IsFinal _ (rw (← money) f) other
      | inr (_, leased) ↦ started leased
    ]
effective_state-IsHeld (name_uncertain e o) j reported money started same f = cc
effective_state-IsHeld (name_mismatch e o) j reported money started same f =
    elim (same e o refl) [ ]

effective_state-not_succeeded :
    (n : PrecommitNameDisposition) (j : DeviceJob) (reported : DeviceJobState)
    → effective_state n j reported ≢ DeviceJobState.succeeded
unfolding effective_state
effective_state-not_succeeded no_disposition j reported =
    financially_safe-not_succeeded reported j.committed_at j.state (is_money_moving j.type)
effective_state-not_succeeded (name_uncertain e o) j reported = λ h. cc
effective_state-not_succeeded (name_mismatch e o) j reported = λ h. cc

marker-duplicate :
    (c : SpoolContext) (inbox : List InboxEvent) (db : Db)
    → db.inbox ≡ marker (some c) inbox
    → spool_disposition (some c) db ≡ duplicate
unfolding spool_disposition inbox_hash job_status_inbox_disposition
marker-duplicate c inbox db h = rw (h, ==_refl c.event_id, ==_refl c.payload_hash)

module _ (compare : String → String → NameDecision) (trim : String → String)
    (now stale device_id job_id : ℕ) (r : DeviceJobReport) where
  report-duplicate :
      (spool : Option SpoolContext) (db : Db) (j : DeviceJob)
      → find job_id db.jobs ≡ some j
      → (is_device j.device_id device_id && (j.fencing_token == r.fencing_token)) ≡ true
      → (is_some spool || not (is_money_moving j.type)) ≡ true
      → spool_disposition spool db ≡ duplicate
      → report compare trim now stale device_id job_id r spool db ≡ ok db
  unfolding report
  report-duplicate spool db j row lease spooled d = rw (row, lease, spooled, d)

  module _ (spool : Option SpoolContext) (db db' : Db) (j : DeviceJob) where
    -- A report that succeeds leaves the job under the same lease (the same device, fence, holder
    -- and end of the lease), and either in the state it had or in the state that the report takes
    -- effect with, for a transition that the table allows.
    pub report-IsStep :
        find job_id db.jobs ≡ some j
        → report compare trim now stale device_id job_id r spool db ≡ ok db'
        → (k : DeviceJob) × (find job_id db'.jobs ≡ some k)
          × JobStep (named compare trim now stale device_id job_id r spool j db) r j k
    unfolding JobStep SameLease
    report-IsStep row h =
        let (i, found, _, _, handled) =
          report-cases compare trim now stale device_id job_id r spool db db' h in
        elim handled [
          | inl (_, same) ↦
              (j, rw (← same) row, ((refl, refl, refl, refl, refl, refl, refl), inl refl))
          | inr (_, _, a) ↦
              (applied-step compare trim now stale device_id job_id r spool db db' j row
                (rw (some_injective (sym row ∙ found)) a)).1
        ]

    -- A report that succeeds on a money-moving job that has left `leased` moves no money: the
    -- ledger and the reserved balance of every SIM stay as they are, unless the report is the
    -- proof of a receiver mismatch before the commit.
    pub report-SameFunds :
        find job_id db.jobs ≡ some j
        → is_money_moving j.type ≡ true
        → j.state ≢ DeviceJobState.leased
        → ((e o : String)
            → named compare trim now stale device_id job_id r spool j db ≢ name_mismatch e o)
        → report compare trim now stale device_id job_id r spool db ≡ ok db'
        → SameFunds db db'
    report-SameFunds row money started same_name h =
        let (i, found, _, _, handled) =
          report-cases compare trim now stale device_id job_id r spool db db' h in
        elim handled [
          | inl (_, same) ↦ rw (← same) (SameFunds-refl db)
          | inr (_, _, a) ↦
              (applied-step compare trim now stale device_id job_id r spool db db' j row
                  (rw (some_injective (sym row ∙ found)) a)).2
                (effective_state-IsHeld _ j r.state money started same_name)
        ]

    -- No report turns a job into a succeeded one: that takes the provider's own message.
    pub report-never_succeeds :
        find job_id db.jobs ≡ some j
        → j.state ≢ DeviceJobState.succeeded
        → report compare trim now stale device_id job_id r spool db ≡ ok db'
        → (k : DeviceJob) × (find job_id db'.jobs ≡ some k) × (k.state ≢ DeviceJobState.succeeded)
    unfolding JobStep
    report-never_succeeds row unproven h =
        let (k, found, (_, step)) = report-IsStep row h in
        (
          k,
          found,
          λ done. elim step [
            | inl same ↦ unproven (sym same ∙ done)
            | inr (_, taken) ↦ effective_state-not_succeeded _ j r.state (sym taken ∙ done)
          ],
        )

-- An event that was reported with success changes nothing when it is delivered again, at any
-- later time, to the database that it has left.
pub report-replay :
    (compare : String → String → NameDecision) (trim : String → String)
    (now stale device_id job_id : ℕ) (r : DeviceJobReport) (c : SpoolContext) (db db' : Db)
    (later later_stale : ℕ)
    → report compare trim now stale device_id job_id r (some c) db ≡ ok db'
    → report compare trim later later_stale device_id job_id r (some c) db' ≡ ok db'
unfolding SameLease JobStep
report-replay compare trim now stale device_id job_id r c db db' later later_stale h =
    let (j, row, lease, spooled, handled) =
      report-cases compare trim now stale device_id job_id r (some c) db db' h in
    elim handled [
      | inl (d, same) ↦ rw (← same) (
          report-duplicate compare trim later later_stale device_id job_id r (some c) db j row lease
            spooled d)
      | inr (_, _, a) ↦
          let (marked, (k, found, ((device, fence, _, _, _, _, _), _)), _) =
            applied-step compare trim now stale device_id job_id r (some c) db db' j row a in
          report-duplicate compare trim later later_stale device_id job_id r (some c) db' k found
            (rw (device, fence) lease) refl (marker-duplicate c db.inbox db' marked)
    ]
