-- ===== src/Withdrawals/Frames.antt =====
-- apps/api/src/withdrawals/withdrawals.service.ts: what the bookkeeping around a transfer leaves
-- alone.
use Prim.Native.String.{String}
use pay.Shared.{ℕ, ◌≡◌, ◌∙◌, ◌==◌, refl, ◌⊎◌, inl, inr, Option, none, some, Option-cases}
use pay.Store.{
  Db, TransferAttempt, SettlementRequest, SweepExecution, DeviceJobState, AttemptOutcome, Transfer,
  FinancialMode, merchant_debit, internal_move,
}
use pay.Withdrawals.Funds.{
  LinkedStatus, update_settlement, update_sweep, update_linked_operation, find_by, is_settlement_of,
}
use pay.Withdrawals.Simulator.{credit_treasury_if_internal}
use pay.Withdrawals.Staff.{close_attempt}
use pay.Withdrawals.Resolve.{finish_attempt}

-- The tables that hold money, and those that a linked operation does not stand in.
unfoldable pub SameCore : Db → Db → Type 0
SameCore a b =
    (b.books ≡ a.books)
    × (b.sims ≡ a.sims)
    × (b.transfers ≡ a.transfers)
    × (b.jobs ≡ a.jobs)
    × (b.attempts ≡ a.attempts)

frame-settlement :
    (s : LinkedStatus) (o : Option (ℕ × SettlementRequest)) (db : Db)
    → SameCore db (update_settlement s o db)
unfolding SameCore
frame-settlement s none db = (refl, refl, refl, refl, refl)
frame-settlement s (some (i, r)) db = (refl, refl, refl, refl, refl)

frame-sweep :
    (now : ℕ) (s : LinkedStatus) (o : Option (ℕ × SweepExecution)) (db : Db)
    → SameCore db (update_sweep now s o db)
unfolding SameCore
frame-sweep now s none db = (refl, refl, refl, refl, refl)
frame-sweep now s (some (i, r)) db = (refl, refl, refl, refl, refl)

pub frame-linked :
    (now id : ℕ) (s : LinkedStatus) (db : Db) → SameCore db (update_linked_operation now id s db)
unfolding SameCore update_linked_operation
frame-linked now id s db =
    let (a, b, c, d, e) = frame-settlement s (find_by (is_settlement_of id) db.settlements) db in
    let (f, g, h, i, k) =
      frame-sweep now s (find_by (λ r. id == r.transfer_id) db.sweeps)
        (update_settlement s (find_by (is_settlement_of id) db.settlements) db) in
    (f ∙ a, g ∙ b, h ∙ c, i ∙ d, k ∙ e)

-- The money and the transfers stay where an attempt and its job get their end.
unfoldable pub SameMoney : Db → Db → Type 0
SameMoney a b = (b.books ≡ a.books) × (b.sims ≡ a.sims) × (b.transfers ≡ a.transfers)

pub frame-close_attempt :
    (now : ℕ) (state : DeviceJobState) (outcome : AttemptOutcome) (code : Option String)
    (o : Option (ℕ × TransferAttempt)) (db : Db)
    → SameMoney db (close_attempt now state outcome code o db)
unfolding SameMoney close_attempt
frame-close_attempt now state outcome code none db = (refl, refl, refl)
frame-close_attempt now state outcome code (some (i, a)) db = elim (Option-cases a.device_job_id) [
  | inl e ↦ rw e (refl, refl, refl)
  | inr (k, e) ↦ rw e (refl, refl, refl)
]

pub frame-finish_attempt :
    (now : ℕ) (state : DeviceJobState) (outcome : AttemptOutcome) (code : Option String)
    (o : Option (ℕ × TransferAttempt)) (db : Db)
    → SameMoney db (finish_attempt now state outcome code o db)
unfolding SameMoney finish_attempt
frame-finish_attempt now state outcome code none db = (refl, refl, refl)
frame-finish_attempt now state outcome code (some (i, a)) db = elim (Option-cases a.device_job_id) [
  | inl e ↦ rw e (refl, refl, refl)
  | inr (k, e) ↦ rw e (refl, refl, refl)
]

mode-cases : (m : FinancialMode) → (m ≡ merchant_debit) ⊎ (m ≡ internal_move)
mode-cases merchant_debit = inl refl
mode-cases internal_move = inr refl

pub frame-treasury : (t : Transfer) (db : Db) → SameMoney db (credit_treasury_if_internal t db)
unfolding SameMoney
frame-treasury t db = elim (mode-cases t.financial_mode) [
  | inl e ↦ rw e (refl, refl, refl)
  | inr e ↦ rw e (refl, refl, refl)
]
