-- ===== src/Withdrawals/Queue.antt =====
-- apps/api/src/withdrawals/withdrawals.service.ts: `create` and `queueTransfer`.
-- `sim_choice` is what `selectForWithdrawal` returned, or the error that it threw; the caller's
-- SIM takes its place where there is one.
use Prim.Native.String.{String}
use pay.Shared.{
  ℕ, ◌+◌, Bool, not, ◌&&◌, Option, none, some, modify, find, create, Result, ok, ◌>>=◌, ◌>>◌,
  require, or_throw, alternate_destination_disabled, record_not_found,
}
use pay.Shared.Int.{ℤ, pos, ◌+ℤ◌}
use pay.Domain.{Environment, test, live, FinancialContext}
use pay.Ledger.{Books, reserve_withdrawal, reserve_internal_move_fee}
use pay.Store.{
  Db, Transfer, TransferAttempt, TransferStatus, FinancialMode, merchant_debit, internal_move,
  DeviceJob, DeviceJobState, DeviceJobType, customer_withdrawal, SimWallet, MerchantConfig,
}
use pay.Withdrawals.Funds.{physical_reservation, ledger_reservation, set_transfer}
use pay.Withdrawals.Simulator.{TestScenario, scenario_or_success, apply_test_scenario}

-- The fields of a create request that the service reads. The amount has gone through
-- `amountToMinor`.
pub record TransferInput : Type 0 where
  pub reference : String
  pub account_number : String
  pub expected_name : String
  pub amount_minor : ℤ
  pub is_alternate : Bool
  pub test_scenario : Option TestScenario

pub record QueueTransferOptions : Type 0 where
  pub operation_kind : DeviceJobType
  pub financial_mode : FinancialMode
  pub priority : ℕ

abbrev pub current_profile_version : String
current_profile_version = "2"

abbrev pub gateway_fee : FinancialMode → MerchantConfig → ℤ
gateway_fee internal_move config = pos 0
gateway_fee merchant_debit config = config.gateway_fee_flat_minor

-- the row that `queueTransfer` creates
abbrev pub new_transfer :
    ℕ → FinancialContext → TransferInput → QueueTransferOptions → MerchantConfig → ℕ → Transfer
new_transfer now auth input options config sim = record {
  owner = auth;
  sim_wallet_id = some sim;
  reference = input.reference;
  destination_phone = input.account_number;
  expected_name = input.expected_name;
  resolved_name = none;
  amount_minor = input.amount_minor;
  reserve_provider_fee_minor = config.reserve_provider_fee_minor;
  gateway_fee_minor = gateway_fee options.financial_mode config;
  provider_fee_minor = none;
  provider_vat_minor = none;
  financial_mode = options.financial_mode;
  operation_kind = options.operation_kind;
  status = TransferStatus.accepted;
  provider_transaction_id = none;
  committed_at = none;
  estimated_completion_at = some (now + 60000);
  completed_at = none;
}

-- the reservation in the ledger, by the financial mode
unfoldable pub reserve_funds : ℕ → Transfer → Books → Result Books
reserve_funds id t = elim t.financial_mode [
  | merchant_debit ↦ reserve_withdrawal t.owner id (ledger_reservation t)
  | internal_move ↦ reserve_internal_move_fee t.owner id t.reserve_provider_fee_minor
]

abbrev pub reserve_on_sim : ℤ → SimWallet → SimWallet
reserve_on_sim x s = record s { reserved_balance_minor = s.reserved_balance_minor +ℤ x }

-- the job of one attempt, for the fence that the SIM has just handed out
abbrev pub new_job :
    ℕ → ℕ → Transfer → ℕ → ℕ → SimWallet → (attempt priority : ℕ) → Option String → DeviceJob
new_job now id t sim fence s attempt priority approved = record {
  type = t.operation_kind;
  state = DeviceJobState.queued;
  priority = priority;
  device_id = some s.device_id;
  sim_wallet_id = sim;
  profile_version = current_profile_version;
  transfer_id = some id;
  financial_operation_id = none;
  approved_provider_name = approved;
  attempt = attempt;
  fencing_token = fence;
  lease_owner = none;
  lease_expires_at = none;
  expires_at = now + 900000;
  created_at = now;
  started_at = none;
  committed_at = none;
  completed_at = none;
  error_code = none;
}

abbrev pub new_attempt : ℕ → ℕ → ℕ → ℕ → TransferAttempt
new_attempt transfer_id number fence job_id = record {
  transfer_id = transfer_id;
  attempt_number = number;
  fencing_token = fence;
  device_job_id = some job_id;
  started_at = none;
  committed_at = none;
  completed_at = none;
  outcome = none;
  error_code = none;
}

abbrev pub next_fence : SimWallet → SimWallet
next_fence s = record s { next_fencing_token = s.next_fencing_token + 1 }

-- A fence from the SIM, a queued job under it, and the attempt that names both. The job's id and
-- the attempt's are the next two.
unfoldable pub enqueue_job :
    ℕ → ℕ → Transfer → ℕ → (attempt priority : ℕ) → Option String → Db → Result Db
enqueue_job now id t sim number priority approved db = do
  s ← or_throw (find sim db.sims) record_not_found
  let fence = s.next_fencing_token + 1
  ok (record db {
    sims = modify sim next_fence db.sims;
    jobs = create db.next_id (new_job now id t sim fence s number priority approved) db.jobs;
    attempts = create (db.next_id + 1) (new_attempt id number fence db.next_id) db.attempts;
    next_id = db.next_id + 2;
  })

-- the last step of `queueTransfer`: the simulator, or a live job and the status `queued`
unfoldable pub dispatch :
    ℕ
    → ℕ
    → Transfer
    → ℕ
    → String
    → TransferInput
    → QueueTransferOptions
    → Environment
    → Db
    → Result Db
dispatch now id t sim provider_id input options test db =
    apply_test_scenario now id t sim provider_id (scenario_or_success input.test_scenario) db
dispatch now id t sim provider_id input options live db = do
  db' ← enqueue_job now id t sim 1 options.priority none db
  ok (set_transfer id (λ r. record r { status = TransferStatus.queued }) db')

-- `queueTransfer`; the transfer takes the next id
unfoldable pub queue_transfer :
    ℕ
    → FinancialContext
    → TransferInput
    → QueueTransferOptions
    → MerchantConfig
    → String
    → Result ℕ
    → Db
    → Result Db
queue_transfer now auth input options config provider_id sim_choice db = do
  sim ← sim_choice
  let id = db.next_id
  let t = new_transfer now auth input options config sim
  books' ← reserve_funds id t db.books
  dispatch now id t sim provider_id input options auth.environment (record db {
    books = books';
    transfers = create id t db.transfers;
    sims = modify sim (reserve_on_sim (physical_reservation t)) db.sims;
    next_id = db.next_id + 1;
  })

abbrev pub customer_options : QueueTransferOptions
customer_options = record {
  operation_kind = customer_withdrawal;
  financial_mode = merchant_debit;
  priority = 500;
}

-- what `create` runs inside the idempotency record
unfoldable pub create_withdrawal :
    ℕ → FinancialContext → TransferInput → MerchantConfig → String → Result ℕ → Db → Result Db
create_withdrawal now auth input config provider_id sim_choice db = do
  require (not (input.is_alternate && not config.allow_alternate_withdrawal_phone))
      alternate_destination_disabled
  queue_transfer now auth input customer_options config provider_id sim_choice db
