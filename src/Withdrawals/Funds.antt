-- ===== src/Withdrawals/Funds.antt =====
-- apps/api/src/withdrawals/withdrawals.service.ts: the parts that its handlers share. A transfer
-- holds money in two places, the ledger's `reserved` account and its SIM's reserved balance.
use pay.Shared.{
  ℕ, ◌+◌, ◌-◌, ◌*◌, ◌/◌, Bool, false, Option, none, some, [], ◌∷◌, ◌==◌, leb, if◌then◌else◌, Table,
  modify, Result,
}
use pay.Shared.Int.{ℤ, ◌+ℤ◌, ◌-ℤ◌}
use pay.Ledger.{
  Books, release_withdrawal_reservation, release_internal_move_fee, settle_withdrawal,
  settle_internal_move_fee,
}
use pay.Store.{
  Db, Transfer, TransferAttempt, TransferStatus, merchant_debit, internal_move, SimWallet,
  SettlementRequest, SettlementStatus, SweepExecution, SweepExecutionStatus, OutboxEvent,
  CoarseStatus, coarse_transfer_status, AggregateType,
}

-- what the merchant's ledger holds for a transfer
abbrev pub ledger_reservation : Transfer → ℤ
ledger_reservation t = t.amount_minor +ℤ t.reserve_provider_fee_minor +ℤ t.gateway_fee_minor

-- what its SIM's reserved balance holds
abbrev pub physical_reservation : Transfer → ℤ
physical_reservation t = t.amount_minor +ℤ t.reserve_provider_fee_minor

-- `releaseWithdrawalReservation` or `releaseInternalMoveFee`, by the financial mode
unfoldable pub release_funds : ℕ → Transfer → Books → Result Books
release_funds id t = elim t.financial_mode [
  | merchant_debit ↦ release_withdrawal_reservation t.owner id (ledger_reservation t)
  | internal_move ↦ release_internal_move_fee t.owner id t.reserve_provider_fee_minor
]

-- `settleWithdrawal` or `settleInternalMoveFee`, by the financial mode
unfoldable pub settle_funds : ℕ → Transfer → (actual_fee : ℤ) → Books → Result Books
settle_funds id t actual_fee = elim t.financial_mode [
  | merchant_debit ↦ settle_withdrawal t.owner id (record {
    amount_minor = t.amount_minor;
    reserved_provider_fee_minor = t.reserve_provider_fee_minor;
    actual_provider_fee_minor = actual_fee;
    gateway_fee_minor = t.gateway_fee_minor;
  })
  | internal_move ↦
      settle_internal_move_fee t.owner id t.amount_minor t.reserve_provider_fee_minor actual_fee
]

-- `reservedBalanceMinor: { decrement }`
abbrev pub unreserve : ℤ → SimWallet → SimWallet
unreserve x s = record s { reserved_balance_minor = s.reserved_balance_minor -ℤ x }

abbrev pub release_sim : Option ℕ → ℤ → Db → Db
release_sim none x db = db
release_sim (some sim) x db = record db { sims = modify sim (unreserve x) db.sims }

abbrev pub set_transfer : ℕ → (Transfer → Transfer) → Db → Db
set_transfer id f db = record db { transfers = modify id f db.transfers }

abbrev pub later : ℕ × TransferAttempt → Option (ℕ × TransferAttempt) → Option (ℕ × TransferAttempt)
later a none = some a
later a (some b) = if leb b.1.attempt_number a.1.attempt_number then some a else some b

-- the attempt of a transfer with the highest number: `orderBy: { attemptNumber: 'desc' }, take: 1`
unfoldable pub latest_attempt : ℕ → Table TransferAttempt → Option (ℕ × TransferAttempt)
latest_attempt transfer_id [] = none
latest_attempt transfer_id ((id, a) ∷ rest) =
    if transfer_id == a.transfer_id
    then later (id, a) (latest_attempt transfer_id rest)
    else latest_attempt transfer_id rest

abbrev pub transfer_event : ℕ → TransferStatus → OutboxEvent
transfer_event id s = record {
  aggregate_type = AggregateType.transfer;
  aggregate_id = id;
  status = coarse_transfer_status s;
  p2p_status = some s;
}

abbrev pub emit : OutboxEvent → Db → Db
emit e db = record db { outbox = e ∷ db.outbox }

-- the three outcomes that `updateLinkedOperation` passes on
pub data LinkedStatus : Type 0 where
  success failed unknown : LinkedStatus

abbrev pub linked_coarse : LinkedStatus → CoarseStatus
linked_coarse LinkedStatus.success = CoarseStatus.success
linked_coarse LinkedStatus.failed = CoarseStatus.failed
linked_coarse LinkedStatus.unknown = CoarseStatus.pending

abbrev pub linked_settlement : LinkedStatus → SettlementStatus
linked_settlement LinkedStatus.success = SettlementStatus.success
linked_settlement LinkedStatus.failed = SettlementStatus.failed
linked_settlement LinkedStatus.unknown = SettlementStatus.unknown

abbrev pub linked_sweep : LinkedStatus → SweepExecutionStatus
linked_sweep LinkedStatus.success = SweepExecutionStatus.success
linked_sweep LinkedStatus.failed = SweepExecutionStatus.failed
linked_sweep LinkedStatus.unknown = SweepExecutionStatus.unknown

-- `status === 'success' || status === 'failed' ? new Date() : undefined`
abbrev pub linked_completed : ℕ → LinkedStatus → Option ℕ → Option ℕ
linked_completed now LinkedStatus.success old = some now
linked_completed now LinkedStatus.failed old = some now
linked_completed now LinkedStatus.unknown old = old

abbrev pub is_settlement_of : ℕ → SettlementRequest → Bool
is_settlement_of id s = elim s.transfer_id [ none ↦ false | some t ↦ id == t ]

-- the row with a unique `transferId`
unfoldable pub find_by {ℓ} : {V : Type ℓ} → (V → Bool) → Table V → Option (ℕ × V)
find_by p [] = none
find_by p ((k, v) ∷ t) = if p v then some (k, v) else find_by p t

-- the status that the event of the operation carries as its `p2p_status`
abbrev linked_p2p : LinkedStatus → TransferStatus
linked_p2p LinkedStatus.success = TransferStatus.success
linked_p2p LinkedStatus.failed = TransferStatus.failed
linked_p2p LinkedStatus.unknown = TransferStatus.unknown

abbrev linked_event : AggregateType → ℕ → LinkedStatus → OutboxEvent
linked_event kind id s = record {
  aggregate_type = kind;
  aggregate_id = id;
  status = linked_coarse s;
  p2p_status = some (linked_p2p s);
}

abbrev pub update_settlement : LinkedStatus → Option (ℕ × SettlementRequest) → Db → Db
update_settlement s none db = db
update_settlement s (some (id, _)) db =
    emit (linked_event AggregateType.settlement id s) (record db {
      settlements = modify id (λ r. record r { status = linked_settlement s }) db.settlements;
    })

abbrev pub update_sweep : ℕ → LinkedStatus → Option (ℕ × SweepExecution) → Db → Db
update_sweep now s none db = db
update_sweep now s (some (id, _)) db =
    emit (linked_event AggregateType.sweep_execution id s) (record db {
      sweeps =
          modify id
            (λ r. record r {
              status = linked_sweep s;
              completed_at = linked_completed now s r.completed_at;
            })
            db.sweeps;
    })

-- `updateLinkedOperation`
unfoldable pub update_linked_operation : ℕ → ℕ → LinkedStatus → Db → Db
unfolding find_by
update_linked_operation now id s db =
    update_sweep now s (find_by (λ r. id == r.transfer_id) db.sweeps)
      (update_settlement s (find_by (is_settlement_of id) db.settlements) db)

-- `addisFinancialDay`: the start of the local day, three hours ahead of UTC all year
unfoldable pub addis_financial_day : ℕ → ℕ
addis_financial_day t = (t + 10800000) / 86400000 * 86400000 - 10800000

-- `sim.financialDay && addisFinancialDay(sim.financialDay) === addisFinancialDay(now)`
abbrev pub is_same_day : ℕ → Option ℕ → Bool
is_same_day now none = false
is_same_day now (some day) = addis_financial_day day == addis_financial_day now
