-- ===== src/Sms/Frames.antt =====
-- apps/api/src/sms/sms-ingestion.service.ts: what the settlement of a payout leaves alone.
use pay.Shared.{ℕ, ◌≡◌, refl, ◌∙◌, ◌⊎◌, inl, inr, Option, none, some, find, ◌==◌}
use pay.Store.{
  Db, DeviceJob, Transfer, TransferAttempt, SettlementRequest, SweepExecution, FinancialMode,
  merchant_debit, internal_move,
}
use pay.Withdrawals.{
  LinkedStatus, update_settlement, update_sweep, update_linked_operation, find_by, is_settlement_of,
  credit_treasury_if_internal,
}
use pay.Sms.Balance.{succeed_job, free_device}
use pay.Sms.Outgoing.{succeed_attempt, succeed_named, succeed_found}

-- The inbox, the deposits and the receipts.
unfoldable pub SameEvidence : Db → Db → Type 0
SameEvidence a b =
    (b.sms_inbox ≡ a.sms_inbox) × (b.deposits ≡ a.deposits) × (b.receipts ≡ a.receipts)

pub SameEvidence-trans : (a b c : Db) → SameEvidence a b → SameEvidence b c → SameEvidence a c
unfolding SameEvidence
SameEvidence-trans a b c (p, q, r) (p', q', r') = (p' ∙ p, q' ∙ q, r' ∙ r)

evidence-settlement :
    (s : LinkedStatus) (o : Option (ℕ × SettlementRequest)) (db : Db)
    → SameEvidence db (update_settlement s o db)
unfolding SameEvidence
evidence-settlement s none db = (refl, refl, refl)
evidence-settlement s (some (i, r)) db = (refl, refl, refl)

evidence-sweep :
    (now : ℕ) (s : LinkedStatus) (o : Option (ℕ × SweepExecution)) (db : Db)
    → SameEvidence db (update_sweep now s o db)
unfolding SameEvidence
evidence-sweep now s none db = (refl, refl, refl)
evidence-sweep now s (some (i, r)) db = (refl, refl, refl)

pub evidence-linked :
    (now id : ℕ) (s : LinkedStatus) (db : Db)
    → SameEvidence db (update_linked_operation now id s db)
unfolding update_linked_operation
evidence-linked now id s db =
    let paid = update_settlement s (find_by (is_settlement_of id) db.settlements) db in
    SameEvidence-trans db paid _
      (evidence-settlement s (find_by (is_settlement_of id) db.settlements) db)
      (evidence-sweep now s (find_by (λ r. id == r.transfer_id) db.sweeps) paid)

mode-cases : (m : FinancialMode) → (m ≡ merchant_debit) ⊎ (m ≡ internal_move)
mode-cases merchant_debit = inl refl
mode-cases internal_move = inr refl

pub evidence-treasury :
    (t : Transfer) (db : Db) → SameEvidence db (credit_treasury_if_internal t db)
unfolding SameEvidence
evidence-treasury t db = elim (mode-cases t.financial_mode) [
  | inl e ↦ rw e (refl, refl, refl)
  | inr e ↦ rw e (refl, refl, refl)
]

-- the device of a job that has ended
abbrev SameButDevices : Db → Db → Type 0
SameButDevices a b =
    (b.books ≡ a.books)
    × (b.sims ≡ a.sims)
    × (b.transfers ≡ a.transfers)
    × (b.sms_inbox ≡ a.sms_inbox)
    × (b.deposits ≡ a.deposits)
    × (b.receipts ≡ a.receipts)

free_device-SameButDevices :
    (o : Option ℕ) (job_id : ℕ) (db : Db) → SameButDevices db (free_device o job_id db)
free_device-SameButDevices none job_id db = (refl, refl, refl, refl, refl, refl)
free_device-SameButDevices (some d) job_id db = (refl, refl, refl, refl, refl, refl)

pub succeed_job-SameButDevices :
    (at job_id : ℕ) (j : DeviceJob) (db : Db) → SameButDevices db (succeed_job at job_id j db)
succeed_job-SameButDevices at job_id j db = free_device-SameButDevices j.device_id job_id _

frame-found :
    (now id job_id : ℕ) (o : Option DeviceJob) (db : Db)
    → SameButDevices db (succeed_found now id job_id o db)
frame-found now id job_id none db = (refl, refl, refl, refl, refl, refl)
frame-found now id job_id (some j) db = free_device-SameButDevices j.device_id job_id _

frame-named : (now id : ℕ) (o : Option ℕ) (db : Db) → SameButDevices db (succeed_named now id o db)
frame-named now id none db = (refl, refl, refl, refl, refl, refl)
frame-named now id (some job_id) db = frame-found now id job_id (find job_id db.jobs) db

pub frame-succeed_attempt :
    (now : ℕ) (o : Option (ℕ × TransferAttempt)) (db : Db)
    → SameButDevices db (succeed_attempt now o db)
unfolding succeed_attempt
frame-succeed_attempt now none db = (refl, refl, refl, refl, refl, refl)
frame-succeed_attempt now (some (i, a)) db = frame-named now i a.device_job_id db
