-- ===== src/Devices/Clock.antt =====
-- apps/api/src/devices/device-jobs.service.ts: the time that a report claims.
use Prim.Native.String.{String}
use mathlib.Core.Option
use pay.Shared.{
  &&-false, ℕ, ◌+◌, ◌≤◌, ◌≡◌, refl, ap, sym, ◌∙◌, ◌≢◌, inl, inr, true, false, Option, none, some,
  arith, find, find-modify_self, find-modify-some, ok, Option-cases, some_injective,
}
use pay.Shared.Int.{◌-ℤ◌}
use pay.Domain.{NameDecision}
use pay.Store.{Db, DeviceJob, DeviceJobState, SimWallet, is_money_moving, is_active_sim}
use pay.Devices.Rules.{ReportedTime, finite, not_finite, bounded_job_observed_at, duplicate}
use pay.Devices.Report.{is_unknown}
use pay.Devices.Reports.{DeviceJobReport, SpoolContext, may_start}
use pay.Devices.Handler.{is_qualified, quarantine}
use pay.Devices.Handling.{spool_disposition, report}
use pay.Devices.Cases.{entry_db, apply-cases, report-cases}

-- The time that a report is taken to have is never more than a minute after its reception or a
-- minute before its job was created, where the job was created before the reception.
pub bounded_job_observed_at-IsBounded :
    (t : ReportedTime) (received created : ℕ)
    → created ≤ received
    → let b = bounded_job_observed_at t received created in
      (b.observed_at ≤ received + 60000) × (created ≤ b.observed_at + 60000)
unfolding bounded_job_observed_at ◌-ℤ◌
bounded_job_observed_at-IsBounded not_finite received created h = (omega arith, omega arith)
bounded_job_observed_at-IsBounded (finite ms) received created h = ground arith

-- an inactive SIM, whatever its device and its group
is_qualified-inactive :
    (now stale device_id sim : ℕ) (db : Db) (s : SimWallet)
    → find sim db.sims ≡ some s
    → is_active_sim s.status ≡ false
    → is_qualified now stale device_id sim db ≡ false
unfolding is_qualified may_start
is_qualified-inactive now stale device_id sim db s row inactive =
    elim (Option-cases (find device_id db.devices)) [
      | inl e ↦ rw (is_qualified, row, e) refl
      | inr (d, e) ↦ elim (Option-cases (find d.group_id db.groups)) [
        | inl f ↦ rw (is_qualified, row, e, f) refl
        | inr (g, f) ↦ rw (is_qualified, row, e, f, may_start, inactive) (&&-false _)
      ]
    ]

is_qualified-missing :
    (now stale device_id sim : ℕ) (db : Db)
    → find sim db.sims ≡ none
    → is_qualified now stale device_id sim db ≡ false
unfolding is_qualified
is_qualified-missing now stale device_id sim db e = rw (is_qualified, e) refl

is_qualified-quarantine :
    (now stale device_id sim : ℕ) (db : Db)
    → is_qualified now stale device_id sim (quarantine device_id sim db) ≡ false
is_qualified-quarantine now stale device_id sim db = elim (Option-cases (find sim db.sims)) [
  | inl e ↦
      is_qualified-missing now stale device_id sim (quarantine device_id sim db)
        (find-modify_self sim _ db.sims ∙ ap (Option.map _) e)
  | inr (s, e) ↦
      is_qualified-inactive now stale device_id sim (quarantine device_id sim db) _
        (find-modify-some sim _ db.sims e) refl
]

leased-not_unknown : (s : DeviceJobState) → s ≡ DeviceJobState.leased → is_unknown s ≢ true
leased-not_unknown s e h = ground arith

-- A money-moving job cannot be started by a report with an implausible time: the quarantine that
-- the report brings about makes its own test of the SIM fail, and the refusal rolls back the
-- quarantine too.
pub report-refuses_clock :
    (compare : String → String → NameDecision) (trim : String → String)
    (now stale device_id job_id : ℕ) (r : DeviceJobReport) (spool : Option SpoolContext)
    (db db' : Db) (j : DeviceJob)
    → find job_id db.jobs ≡ some j
    → j.state ≡ DeviceJobState.leased
    → r.state ≡ DeviceJobState.device_started
    → is_money_moving j.type ≡ true
    → (bounded_job_observed_at r.observed_at_ms now j.created_at).clock_invalid ≡ true
    → spool_disposition spool db ≢ duplicate
    → report compare trim now stale device_id job_id r spool db ≢ ok db'
report-refuses_clock compare trim now stale device_id job_id r spool db db' j row leased started
      money clock fresh h =
    let (i, found, _, _, handled) =
      report-cases compare trim now stale device_id job_id r spool db db' h in
    elim handled [
      | inl (d, _) ↦ fresh d
      | inr (_, _, a) ↦
          elim (apply-cases compare trim now stale device_id job_id r spool j db db'
            (rw (some_injective (sym row ∙ found)) a)) [
              | inl (late, _) ↦ leased-not_unknown j.state leased late
              | inr (inl (same, _)) ↦ ground arith
              | inr (inr (moved, _, starts, _, _)) ↦
                  let unfit : is_qualified now stale device_id j.sim_wallet_id
                        (entry_db compare trim now stale device_id job_id r spool j db)
                      ≡ false =
                    rw clock (is_qualified-quarantine now stale device_id j.sim_wallet_id db) in
                  ground (arith, unfit, starts, money, started)
            ]
    ]
