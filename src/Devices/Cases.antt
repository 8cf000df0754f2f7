-- ===== src/Devices/Cases.antt =====
-- apps/api/src/devices/device-jobs.service.ts: the ways through `report`.
use Prim.Native.String.{String}
use pay.Shared.{
  ℕ, ◌≡◌, refl, ◌⊎◌, inl, inr, true, false, not, ◌&&◌, ◌||◌, Option, some, ◌==◌, is_some, arith,
  find, Result, ok, or_throw, require, >>=-eq-ok, require-eq-ok, or_throw-eq-ok, ok_injective,
  if-cases, if◌then◌else◌,
}
use pay.Domain.{NameDecision}
use pay.Store.{Db, DeviceJob, is_money_moving}
use pay.Devices.Rules.{
  allowed_transition, BoundedTime, bounded_job_observed_at, PrecommitNameDisposition, duplicate,
  process, conflict, InboxDisposition,
}
use pay.Devices.Reports.{DeviceJobReport, SpoolContext, same_state, persist_spool_outcome}
use pay.Devices.Report.{linked_transfer, is_started, is_unknown}
use pay.Devices.Handler.{is_device, is_qualified, keep_evidence, move_job, quarantine}
use pay.Devices.Handling.{
  spool_disposition, names_operation, by_disposition, name_disposition, apply_report, report,
}

disposition-cases :
    (d : InboxDisposition) (db db' : Db) (m : Result Db)
    → by_disposition d db m ≡ ok db'
    → ((d ≡ duplicate) × (db ≡ db')) ⊎ ((d ≡ process) × (m ≡ ok db'))
disposition-cases duplicate db db' m h = inl (refl, ok_injective h)
disposition-cases process db db' m h = inr (refl, h)
disposition-cases conflict db db' m h = cc

module _ (compare : String → String → NameDecision) (trim : String → String)
    (now stale device_id job_id : ℕ) (r : DeviceJobReport) (spool : Option SpoolContext) where
  -- the database that the handler works on, which a report with a wrong clock has changed
  abbrev pub observed_time : DeviceJob → BoundedTime
  observed_time j = bounded_job_observed_at r.observed_at_ms now j.created_at

  abbrev pub entry_db : DeviceJob → Db → Db
  entry_db j db =
      if (observed_time j).clock_invalid then quarantine device_id j.sim_wallet_id db else db

  abbrev pub named : DeviceJob → Db → PrecommitNameDisposition
  named j db = name_disposition compare trim j (linked_transfer job_id db) r spool

  abbrev pub persisted : DeviceJob → Db → Db → Db
  persisted j db x = persist_spool_outcome job_id (linked_transfer job_id db) spool (named j db) x

  pub apply-cases :
      (j : DeviceJob) (db db' : Db)
      → apply_report compare trim now stale device_id job_id j r spool db ≡ ok db'
      → ((is_unknown j.state ≡ true)
          × (persisted j db (
                keep_evidence job_id j r
                  (observed_time j).observed_at
                  (linked_transfer job_id db)
                  (entry_db j db))
              ≡ db'))
        ⊎ (((same_state j.state r.state ≡ true) × (persisted j db (entry_db j db) ≡ db'))
            ⊎ ((moved : Db) × (allowed_transition j.state r.state ≡ true)
                × (((is_started r.state && is_money_moving j.type)
                      && not (is_qualified now stale device_id j.sim_wallet_id (entry_db j db)))
                    ≡ false)
                × (move_job device_id job_id j r
                      (observed_time j).observed_at
                      (named j db)
                      (linked_transfer job_id db)
                      (entry_db j db)
                    ≡ ok moved)
                × (persisted j db moved ≡ db')))
  unfolding apply_report
  apply-cases j db db' h = elim (if-cases (is_unknown j.state && _) _ _ _ h) [
    | inl (late, e) ↦ inl (ground arith, ok_injective e)
    | inr (_, rest) ↦ elim (if-cases (not (allowed_transition j.state r.state)) _ _ _ rest) [
      | inl (_, again) ↦ elim (if-cases (same_state j.state r.state) _ _ _ again) [
        | inl (same, e) ↦ inr (inl (same, ok_injective e))
        | inr (_, e) ↦ cc
      ]
      | inr (allowed, moves) ↦
          elim (if-cases ((is_started r.state && is_money_moving j.type) && _) _ _ _ moves) [
            | inl (_, e) ↦ cc
            | inr (starts, e) ↦
                let (moved, m, p) = >>=-eq-ok (move_job _ _ _ _ _ _ _ _) _ e in
                inr (inr (moved, ground arith, starts, m, ok_injective p))
          ]
    ]
  ]

  -- the guards that a successful report has passed
  pub report-cases :
      (db db' : Db)
      → report compare trim now stale device_id job_id r spool db ≡ ok db'
      → (j : DeviceJob) × (find job_id db.jobs ≡ some j)
        × ((is_device j.device_id device_id && (j.fencing_token == r.fencing_token)) ≡ true)
        × ((is_some spool || not (is_money_moving j.type)) ≡ true)
        × (((spool_disposition spool db ≡ duplicate) × (db ≡ db'))
            ⊎ ((spool_disposition spool db ≡ process)
                × (names_operation job_id j spool ≡ true)
                × (apply_report compare trim now stale device_id job_id j r spool db ≡ ok db')))
  unfolding report
  report-cases db db' h =
      let (j, e, f) = >>=-eq-ok (or_throw (find job_id db.jobs) _) _ h in
      let (_, lease, g) = >>=-eq-ok (require _ _) _ f in
      let (_, spooled, rest) = >>=-eq-ok (require _ _) _ g in
      (
        j,
        or_throw-eq-ok _ _ e,
        require-eq-ok _ _ lease,
        require-eq-ok _ _ spooled,
        elim (disposition-cases (spool_disposition spool db) db db' _ rest) [
          | inl (d, same) ↦ inl (d, same)
          | inr (d, e) ↦ elim (if-cases (names_operation job_id j spool) _ _ _ e) [
            | inl (n, a) ↦ inr (d, n, a)
            | inr (_, a) ↦ cc
          ]
        ],
      )
