-- ===== src/Devices/Frames.antt =====
-- apps/api/src/devices/device-jobs.service.ts: the frames of the parts of a report.
use Prim.Native.String.{String}
use pay.Shared.{
  ℕ, ◌≡◌, refl, ◌≢◌, ◌∙◌, true, false, Option, none, some, [], ◌∷◌, arith, Table, find, modify, ok,
  >>=-eq-ok, ok_injective, if-both,
}
use pay.Shared.Int.{ℤ}
use pay.Store.{Db, Transfer, TransferAttempt, DeviceJob, DeviceJobState, SimWallet}
use pay.Devices.Rules.{
  PrecommitNameDisposition, no_disposition, name_uncertain, name_mismatch,
  should_release_device_lock,
}
use pay.Devices.Reports.{
  DeviceJobReport, SpoolContext, persist_spool_outcome, name_case_of, has_name_case,
}
use pay.Withdrawals.{release_funds}
use pay.Devices.Report.{release_if_failed}
use pay.Devices.Handler.{
  update_transfer_for_report, quarantine, keep_evidence, effective_state, possible_commit_at,
  report_job, move_job,
}

abbrev pub reserved_of : Option SimWallet → Option ℤ
reserved_of none = none
reserved_of (some s) = some s.reserved_balance_minor

-- The ledger and every SIM's reserved balance are the same.
unfoldable pub SameFunds : Db → Db → Type 0
SameFunds a b =
    (b.books.accounts ≡ a.books.accounts)
    × (b.books.journals ≡ a.books.journals)
    × (b.books.entries ≡ a.books.entries)
    × ((k : ℕ) → reserved_of (find k b.sims) ≡ reserved_of (find k a.sims))

pub SameFunds-refl : (a : Db) → SameFunds a a
unfolding SameFunds
SameFunds-refl a = (refl, refl, refl, λ k. refl)

pub SameFunds-trans : (a b c : Db) → SameFunds a b → SameFunds b c → SameFunds a c
unfolding SameFunds
SameFunds-trans a b c (p, q, r, s) (p', q', r', s') = (p' ∙ p, q' ∙ q, r' ∙ r, λ k. s' k ∙ s k)

reserved-modify :
    (k i : ℕ) (f : SimWallet → SimWallet) (t : Table SimWallet)
    → ((s : SimWallet) → (f s).reserved_balance_minor ≡ s.reserved_balance_minor)
    → reserved_of (find k (modify i f t)) ≡ reserved_of (find k t)
unfolding find modify
reserved-modify k i f [] h = refl
reserved-modify k i f ((j, s) ∷ t) h = ground (arith, reserved-modify k i f t h, h s)

pub SameFunds-quarantine : (d sim : ℕ) (db : Db) → SameFunds db (quarantine d sim db)
unfolding SameFunds
SameFunds-quarantine d sim db = (refl, refl, refl, λ k. reserved-modify k sim _ db.sims (λ s. refl))

pub SameFunds-keep_evidence :
    (job_id : ℕ) (j : DeviceJob) (r : DeviceJobReport) (observed : ℕ)
    (linked : Option (ℕ × TransferAttempt × Transfer)) (db : Db)
    → SameFunds db (keep_evidence job_id j r observed linked db)
unfolding SameFunds keep_evidence
SameFunds-keep_evidence job_id j r observed none db = (refl, refl, refl, λ k. refl)
SameFunds-keep_evidence job_id j r observed (some (a, b, c)) db = (refl, refl, refl, λ k. refl)

SameFunds-name_case :
    (job_id : ℕ) (linked : Option (ℕ × TransferAttempt × Transfer)) (n : PrecommitNameDisposition)
    (db : Db)
    → SameFunds db (name_case_of job_id linked n db)
unfolding SameFunds
SameFunds-name_case job_id none n db = SameFunds-refl db
SameFunds-name_case job_id (some (a, b, t)) no_disposition db = SameFunds-refl db
SameFunds-name_case job_id (some (a, b, t)) (name_uncertain e o) db =
    if-both (SameFunds db) (has_name_case true b.transfer_id db.books.cases) _ _ (SameFunds-refl db)
      (refl, refl, refl, λ k. refl)
SameFunds-name_case job_id (some (a, b, t)) (name_mismatch e o) db =
    if-both (SameFunds db) (has_name_case false b.transfer_id db.books.cases) _ _
      (SameFunds-refl db) (refl, refl, refl, λ k. refl)

pub SameFunds-persist :
    (job_id : ℕ) (linked : Option (ℕ × TransferAttempt × Transfer)) (spool : Option SpoolContext)
    (n : PrecommitNameDisposition) (db : Db)
    → SameFunds db (persist_spool_outcome job_id linked spool n db)
unfolding SameFunds persist_spool_outcome
SameFunds-persist job_id linked none n db = SameFunds-refl db
SameFunds-persist job_id linked (some c) n db = SameFunds-name_case job_id linked n db

pub SameFunds-update :
    (job_id sim : ℕ) (s : DeviceJobState) (observed : ℕ) (possible : Option ℕ) (code : String)
    (linked : Option (ℕ × TransferAttempt × Transfer)) (db db' : Db)
    → s ≢ DeviceJobState.failed
    → update_transfer_for_report job_id sim s observed possible code linked db ≡ ok db'
    → SameFunds db db'
unfolding SameFunds update_transfer_for_report
SameFunds-update job_id sim s observed possible code none db db' other h =
    rw (← ok_injective h) (SameFunds-refl db)
SameFunds-update job_id sim DeviceJobState.failed observed possible code (some l) db db' other h =
    elim (other refl) [ ]
SameFunds-update job_id sim _ observed possible code (some (a, b, t)) db db' other h =
    rw (← ok_injective h) (refl, refl, refl, λ k. refl)

-- The jobs and the inbox are left to the caller.
pub update_transfer-frame :
    (job_id sim : ℕ) (s : DeviceJobState) (observed : ℕ) (possible : Option ℕ) (code : String)
    (linked : Option (ℕ × TransferAttempt × Transfer)) (db db' : Db)
    → update_transfer_for_report job_id sim s observed possible code linked db ≡ ok db'
    → (db'.jobs ≡ db.jobs) × (db'.inbox ≡ db.inbox)
unfolding update_transfer_for_report
update_transfer-frame job_id sim s observed possible code none db db' h =
    rw (← ok_injective h) (refl, refl)
update_transfer-frame job_id sim DeviceJobState.failed observed possible code (some (a, b, t)) db
      db' h =
    let (moved, e, f) =
      >>=-eq-ok (release_if_failed DeviceJobState.failed b.transfer_id t sim _) _ h in
    let (books', e', f') = >>=-eq-ok (release_funds b.transfer_id t db.books) _ e in
    rw (← ok_injective f, ← ok_injective f') (refl, refl)
update_transfer-frame job_id sim _ observed possible code (some (a, b, t)) db db' h =
    rw (← ok_injective h) (refl, refl)

abbrev pub moved_jobs :
    ℕ → DeviceJob → DeviceJobReport → ℕ → PrecommitNameDisposition → Db → Table DeviceJob
moved_jobs job_id j r observed n db =
    modify job_id
      (report_job (effective_state n j r.state) observed
        (possible_commit_at j (effective_state n j r.state) observed) r.error_code)
      db.jobs

module _ (device_id job_id : ℕ) (j : DeviceJob) (r : DeviceJobReport) (observed : ℕ)
    (n : PrecommitNameDisposition) (linked : Option (ℕ × TransferAttempt × Transfer)) (db db' : Db)
    (h : move_job device_id job_id j r observed n linked db ≡ ok db') where
  pub SameFunds-move : effective_state n j r.state ≢ DeviceJobState.failed → SameFunds db db'
  unfolding move_job SameFunds
  SameFunds-move other =
      let (moved, e, f) = >>=-eq-ok (update_transfer_for_report _ _ _ _ _ _ _ _) _ h in
      rw (← ok_injective f) (
        if-both (SameFunds db) (should_release_device_lock (effective_state n j r.state)) _ _
          (SameFunds-update job_id _ _ _ _ _ linked _ moved other e)
          (SameFunds-update job_id _ _ _ _ _ linked _ moved other e))

  pub jobs-move : (db'.inbox ≡ db.inbox) × (db'.jobs ≡ moved_jobs job_id j r observed n db)
  unfolding move_job
  jobs-move =
      let (moved, e, f) = >>=-eq-ok (update_transfer_for_report _ _ _ _ _ _ _ _) _ h in
      let (same, inbox) = update_transfer-frame job_id _ _ _ _ _ linked _ moved e in
      rw (← ok_injective f) (
        if-both (λ (x : Db). (x.inbox ≡ db.inbox) × (x.jobs ≡ moved_jobs job_id j r observed n db))
          (should_release_device_lock (effective_state n j r.state)) _ _ (inbox, same)
          (inbox, same))
