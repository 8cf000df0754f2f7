-- ===== src/Sweeps/Execution.antt =====
-- apps/api/src/sweeps/sweeps.service.ts: the execution of the approved rules. Each SIM is swept in a
-- transaction of its own, so an error of one leaves the sweeps before it.
use Prim.Native.String.{String}
use pay.Shared.{
  ℕ, ◌+◌, ◌*◌, ◌/◌, Bool, true, false, ◌&&◌, ◌||◌, Option, none, some, [], ◌∷◌, ◌==◌, leb,
  if◌then◌else◌, Table, find, modify, create, Result, ok, ◌>>=◌, or_throw, record_not_found,
}
use pay.Shared.Int.{ℤ, pos, ◌+ℤ◌, ◌-ℤ◌, leb_ℤ, ltb_ℤ}
use pay.Domain.{Environment, test, live}
use pay.Store.{
  Db, SweepRule, SweepExecution, SweepExecutionStatus, SweepKey, SimWallet, DeviceGroup, Transfer,
  TransferStatus, DeviceJobType, MerchantConfig, OutboxEvent, CoarseStatus, AggregateType,
  AuditAction,
}
use pay.Contracts.{amount_to_minor, minor_to_amount}
use pay.Withdrawals.{TransferInput, QueueTransferOptions, queue_transfer, audited, emit, is_sim}
use pay.Fleet.Selection.{sent_on}
use pay.Sweeps.Rules.{
  is_approved, SweepAmountInput, calculate_sweep_amount, financial_mode_for_destination,
  execution_status_from_transfer,
}

-- `activeExecutionStatuses`
abbrev pub is_active_execution : SweepExecutionStatus → Bool
is_active_execution SweepExecutionStatus.success = false
is_active_execution SweepExecutionStatus.failed = false
is_active_execution _ = true

-- a transfer whose money has not moved yet
abbrev pub is_pending_transfer : TransferStatus → Bool
is_pending_transfer TransferStatus.success = false
is_pending_transfer TransferStatus.failed = false
is_pending_transfer TransferStatus.cancelled = false
is_pending_transfer _ = true

abbrev pub is_live_environment : Environment → Bool
is_live_environment live = true
is_live_environment test = false

unfoldable pub is_executable : SweepRule → Bool
is_executable rule =
    is_approved rule.status && (rule.enabled && is_live_environment rule.owner.environment)

-- `aggregate({ _sum })` over the pending transfers of a SIM
unfoldable pub pending_outflow : (sim : ℕ) → Table Transfer → ℤ
pending_outflow sim [] = pos 0
pending_outflow sim ((id, t) ∷ rest) =
    (if is_sim t.sim_wallet_id sim && is_pending_transfer t.status
      then t.amount_minor +ℤ t.reserve_provider_fee_minor
      else pos 0)
    +ℤ pending_outflow sim rest

-- what the group's daily limit leaves for one more sweep with its fee
abbrev pub remaining_daily :
    (now : ℕ) → DeviceGroup → MerchantConfig → (sim_id : ℕ) → SimWallet → Table Transfer → ℤ
remaining_daily now g c sim_id s transfers =
    g.daily_limit_minor
    -ℤ sent_on now s
    -ℤ pending_outflow sim_id transfers
    -ℤ c.reserve_provider_fee_minor

abbrev pub lesser : ℤ → ℤ → ℤ
lesser a b = if ltb_ℤ a b then a else b

abbrev pub amount_input :
    SweepRule → DeviceGroup → MerchantConfig → SimWallet → (remaining : ℤ) → SweepAmountInput
amount_input rule g c s remaining = record {
  balance_minor = s.main_balance_minor;
  reserved_minor = s.reserved_balance_minor +ℤ c.reserve_provider_fee_minor;
  safety_minor = g.safety_balance_minor;
  high_water_minor = rule.high_water_minor;
  target_minor = rule.target_balance_minor;
  max_per_run_minor = lesser remaining rule.max_per_run_minor;
}

-- the amount of the sweep; zero where the code returns before it
unfoldable pub sweep_amount :
    (now : ℕ)
    → SweepRule
    → DeviceGroup
    → MerchantConfig
    → (sim_id : ℕ) → SimWallet
    → Table Transfer
    → ℤ
sweep_amount now rule g c sim_id s transfers =
    let remaining = remaining_daily now g c sim_id s transfers in
    if leb_ℤ remaining (pos 0)
    then pos 0
    else calculate_sweep_amount (amount_input rule g c s remaining)

-- an execution that is unfinished, or younger than the interval of the rule
unfoldable pub is_recent_execution : (now rule_id sim_id interval : ℕ) → SweepExecution → Bool
is_recent_execution now rule_id sim_id interval e =
    (e.rule_id == rule_id)
    && ((e.sim_wallet_id == sim_id)
        && (is_active_execution e.status || leb now (e.created_at + interval * 1000)))

unfoldable pub same_key : SweepKey → SweepKey → Bool
same_key a b =
    ((a.rule_id == b.rule_id) && (a.sim_id == b.sim_id))
    && ((a.version == b.version) && (a.bucket == b.bucket))

abbrev pub key_of : (now rule_id sim_id : ℕ) → SweepRule → SweepKey
key_of now rule_id sim_id rule = record {
  rule_id = rule_id;
  sim_id = sim_id;
  version = rule.version;
  bucket = now / (rule.minimum_interval_seconds * 1000);
}

abbrev pub sweep_transfer :
    (reference : SweepKey → String) → SweepKey → SweepRule → ℤ → TransferInput
sweep_transfer reference key rule amount = record {
  reference = reference key;
  account_number = rule.destination_phone;
  expected_name = rule.destination_name;
  amount_minor = amount;
  is_alternate = false;
  test_scenario = none;
}

abbrev pub sweep_options : SweepRule → QueueTransferOptions
sweep_options rule = record {
  operation_kind = DeviceJobType.automatic_sweep;
  financial_mode = financial_mode_for_destination rule.destination_type;
  priority = 200;
}

abbrev coarse_sweep : TransferStatus → CoarseStatus
coarse_sweep TransferStatus.success = CoarseStatus.success
coarse_sweep TransferStatus.failed = CoarseStatus.failed
coarse_sweep _ = CoarseStatus.pending

abbrev completed_if_final : (now : ℕ) → TransferStatus → Option ℕ
completed_if_final now TransferStatus.success = some now
completed_if_final now TransferStatus.failed = some now
completed_if_final now _ = none

abbrev pub new_execution :
    (now : ℕ) → SweepKey → (amount : ℤ) → (transfer_id : ℕ) → TransferStatus → SweepExecution
new_execution now key amount transfer_id status = record {
  rule_id = key.rule_id;
  sim_wallet_id = key.sim_id;
  idempotency_key = key;
  amount_minor = amount;
  created_at = now;
  transfer_id = transfer_id;
  status = execution_status_from_transfer status;
  completed_at = completed_if_final now status;
}

abbrev sweep_event : (id : ℕ) → TransferStatus → OutboxEvent
sweep_event id status = record {
  aggregate_type = AggregateType.sweep_execution;
  aggregate_id = id;
  status = coarse_sweep status;
  p2p_status = none;
}

-- the rows after the dispatch: the execution takes the next id
abbrev pub record_execution :
    (now : ℕ)
    → SweepKey
    → (amount : ℤ) → (transfer_id : ℕ) → (actor : ℕ) → (reason : String) → TransferStatus
    → Db
    → Db
record_execution now key amount transfer_id actor reason status db =
    emit (sweep_event db.next_id status) (
      audited actor AuditAction.sweep_dispatched db.next_id reason (record db {
        sweeps = create db.next_id (new_execution now key amount transfer_id status) db.sweeps;
        sweep_rules =
            modify key.rule_id (λ r. record r { last_executed_at = some now }) db.sweep_rules;
        next_id = db.next_id + 1;
      }))

-- the dispatch through `queueTransfer`, from the very SIM
unfoldable pub dispatch_sweep :
    (now : ℕ)
    → (reference : SweepKey → String) → (actor : ℕ) → (reason : String) → SweepKey
    → SweepRule
    → MerchantConfig
    → (amount : ℤ) → Db
    → Result (Option ℕ × Db)
dispatch_sweep now reference actor reason key rule config amount db = do
  sent ← amount_to_minor (minor_to_amount amount)
  db' ←
      queue_transfer now rule.owner (sweep_transfer reference key rule sent) (sweep_options rule)
        config "" (ok key.sim_id) db
  t ← or_throw (find db.next_id db'.transfers) record_not_found
  ok (some db'.next_id, record_execution now key amount db.next_id actor reason t.status db')

-- the sweep with the idempotency key, where there is one already
unfoldable pub dispatch_once :
    (now : ℕ)
    → (reference : SweepKey → String) → (actor : ℕ) → (reason : String) → SweepKey
    → SweepRule
    → MerchantConfig
    → (amount : ℤ) → Option (ℕ × SweepExecution)
    → Db
    → Result (Option ℕ × Db)
dispatch_once now reference actor reason key rule config amount (some (id, e)) db = ok (some id, db)
dispatch_once now reference actor reason key rule config amount none db =
    dispatch_sweep now reference actor reason key rule config amount db
