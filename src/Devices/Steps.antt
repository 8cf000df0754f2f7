-- ===== src/Devices/Steps.antt =====
-- apps/api/src/devices/device-jobs.service.ts: `report` as a step of a job, of the inbox and of the
-- money.
use Prim.Native.String.{String}
use pay.Shared.{
  ℕ, ◌≡◌, refl, ap, ◌∙◌, ◌≢◌, ◌⊎◌, inl, inr, true, false, Option, none, some, List, ◌∷◌, find, ok,
  if-both, find-modify-some,
}
use pay.Domain.{NameDecision}
use pay.Store.{Db, Transfer, TransferAttempt, DeviceJob, DeviceJobState, InboxEvent}
use pay.Devices.Rules.{
  allowed_transition, PrecommitNameDisposition, no_disposition, name_uncertain, name_mismatch,
}
use pay.Devices.Reports.{
  DeviceJobReport, SpoolContext, persist_spool_outcome, name_case_of, has_name_case,
}
use pay.Devices.Report.{linked_transfer}
use pay.Devices.Handler.{effective_state, keep_evidence}
use pay.Devices.Handling.{apply_report}
use pay.Devices.Frames.{
  SameFunds, SameFunds-refl, SameFunds-trans, SameFunds-quarantine, SameFunds-keep_evidence,
  SameFunds-persist, SameFunds-move, jobs-move,
}
use pay.Devices.Cases.{observed_time, entry_db, named, apply-cases}

-- The two rows are the same job under the same lease: its device, its fence, its holder and its
-- end are equal, and so are the kind of the job and what it works for.
unfoldable pub SameLease : DeviceJob → DeviceJob → Type 0
SameLease j k =
    (k.device_id ≡ j.device_id)
    × (k.fencing_token ≡ j.fencing_token)
    × (k.lease_owner ≡ j.lease_owner)
    × (k.lease_expires_at ≡ j.lease_expires_at)
    × (k.type ≡ j.type)
    × (k.transfer_id ≡ j.transfer_id)
    × (k.financial_operation_id ≡ j.financial_operation_id)

abbrev pub marker : Option SpoolContext → List InboxEvent → List InboxEvent
marker none inbox = inbox
marker (some c) inbox = record { external_id = c.event_id; payload_hash = c.payload_hash } ∷ inbox

frame-name_case :
    (job_id : ℕ) (linked : Option (ℕ × TransferAttempt × Transfer)) (n : PrecommitNameDisposition)
    (db : Db)
    → let x = name_case_of job_id linked n db in (x.jobs ≡ db.jobs) × (x.inbox ≡ db.inbox)
frame-name_case job_id none n db = (refl, refl)
frame-name_case job_id (some (a, b, t)) no_disposition db = (refl, refl)
frame-name_case job_id (some (a, b, t)) (name_uncertain e o) db =
    if-both (λ (x : Db). (x.jobs ≡ db.jobs) × (x.inbox ≡ db.inbox))
      (has_name_case true b.transfer_id db.books.cases) _ _ (refl, refl) (refl, refl)
frame-name_case job_id (some (a, b, t)) (name_mismatch e o) db =
    if-both (λ (x : Db). (x.jobs ≡ db.jobs) × (x.inbox ≡ db.inbox))
      (has_name_case false b.transfer_id db.books.cases) _ _ (refl, refl) (refl, refl)

frame-persist :
    (job_id : ℕ) (linked : Option (ℕ × TransferAttempt × Transfer)) (spool : Option SpoolContext)
    (n : PrecommitNameDisposition) (db : Db)
    → let x = persist_spool_outcome job_id linked spool n db in
      (x.jobs ≡ db.jobs) × (x.inbox ≡ marker spool db.inbox)
unfolding persist_spool_outcome
frame-persist job_id linked none n db = (refl, refl)
frame-persist job_id linked (some c) n db =
    let (jobs, inbox) = frame-name_case job_id linked n db in (jobs, ap (marker (some c)) inbox)

frame-evidence :
    (job_id : ℕ) (j : DeviceJob) (r : DeviceJobReport) (observed : ℕ)
    (linked : Option (ℕ × TransferAttempt × Transfer)) (db : Db)
    → find job_id db.jobs ≡ some j
    → let x = keep_evidence job_id j r observed linked db in
      (x.inbox ≡ db.inbox)
      × ((k : DeviceJob) × (find job_id x.jobs ≡ some k) × SameLease j k × (k.state ≡ j.state))
unfolding keep_evidence SameLease
frame-evidence job_id j r observed none db e =
    (refl, (j, e, (refl, refl, refl, refl, refl, refl, refl), refl))
frame-evidence job_id j r observed (some (a, b, t)) db e = (
  refl,
  (_, find-modify-some job_id _ db.jobs e, (refl, refl, refl, refl, refl, refl, refl), refl),
)

-- The job after a report: in the state it had, or, where the table has the transition, in the
-- state that the report takes effect with.
unfoldable pub JobStep : PrecommitNameDisposition → DeviceJobReport → DeviceJob → DeviceJob → Type 0
JobStep n r j k =
    SameLease j k
    × ((k.state ≡ j.state)
        ⊎ ((allowed_transition j.state r.state ≡ true) × (k.state ≡ effective_state n j r.state)))

module _ (compare : String → String → NameDecision) (trim : String → String)
    (now stale device_id job_id : ℕ) (r : DeviceJobReport) (spool : Option SpoolContext)
    (db db' : Db) where
  entry-frame :
      (j : DeviceJob)
      → let x = entry_db compare trim now stale device_id job_id r spool j db in
        (x.jobs ≡ db.jobs) × (x.inbox ≡ db.inbox) × SameFunds db x
  entry-frame j =
      if-both (λ (x : Db). (x.jobs ≡ db.jobs) × (x.inbox ≡ db.inbox) × SameFunds db x)
        (observed_time compare trim now stale device_id job_id r spool j).clock_invalid _ _
        (refl, refl, SameFunds-quarantine device_id j.sim_wallet_id db)
        (refl, refl, SameFunds-refl db)

  abbrev name_of : DeviceJob → PrecommitNameDisposition
  name_of j = named compare trim now stale device_id job_id r spool j db

  pub SameLease-refl : (j : DeviceJob) → SameLease j j
  unfolding SameLease
  SameLease-refl j = (refl, refl, refl, refl, refl, refl, refl)

  pub applied-step :
      (j : DeviceJob)
      → find job_id db.jobs ≡ some j
      → apply_report compare trim now stale device_id job_id j r spool db ≡ ok db'
      → (db'.inbox ≡ marker spool db.inbox)
        × ((k : DeviceJob) × (find job_id db'.jobs ≡ some k) × JobStep (name_of j) r j k)
        × (effective_state (name_of j) j r.state ≢ DeviceJobState.failed → SameFunds db db')
  unfolding JobStep SameLease
  applied-step j row h =
      let (jobs, inbox, money) = entry-frame j in
      let entered = entry_db compare trim now stale device_id job_id r spool j db in
      let linked = linked_transfer job_id db in
      let time = observed_time compare trim now stale device_id job_id r spool j in
      elim (apply-cases compare trim now stale device_id job_id r spool j db db' h) [
        | inl (_, e) ↦
            let x = keep_evidence job_id j r time.observed_at linked entered in
            let (inbox', (k, found, lease, state)) =
              frame-evidence job_id j r time.observed_at linked entered
                (ap (find job_id) jobs ∙ row) in
            let (same, marked) = frame-persist job_id linked spool (name_of j) x in
            rw (← e) (
              marked ∙ ap (marker spool) (inbox' ∙ inbox),
              (k, ap (find job_id) same ∙ found, (lease, inl state)),
              λ _.
                  SameFunds-trans db x _
                    (SameFunds-trans db entered x money
                      (SameFunds-keep_evidence job_id j r time.observed_at linked entered))
                    (SameFunds-persist job_id linked spool (name_of j) x),
            )
        | inr (inl (_, e)) ↦
            let (same, marked) = frame-persist job_id linked spool (name_of j) entered in
            rw (← e) (
              marked ∙ ap (marker spool) inbox,
              (j, ap (find job_id) (same ∙ jobs) ∙ row, (SameLease-refl j, inl refl)),
              λ _.
                  SameFunds-trans db entered _ money
                    (SameFunds-persist job_id linked spool (name_of j) entered),
            )
        | inr (inr (moved, allowed, _, m, e)) ↦
            let (inbox', jobs') =
              jobs-move device_id job_id j r time.observed_at (name_of j) linked entered moved m in
            let (same, marked) = frame-persist job_id linked spool (name_of j) moved in
            rw (← e) (
              marked ∙ ap (marker spool) (inbox' ∙ inbox),
              (
                _,
                ap (find job_id) (same ∙ jobs')
                    ∙ find-modify-some job_id _ entered.jobs (ap (find job_id) jobs ∙ row),
                (SameLease-refl j, inr (allowed, refl)),
              ),
              λ other.
                  SameFunds-trans db moved _
                    (SameFunds-trans db entered moved money (
                      SameFunds-move device_id job_id j r time.observed_at (name_of j) linked
                        entered moved m other))
                    (SameFunds-persist job_id linked spool (name_of j) moved),
            )
      ]
