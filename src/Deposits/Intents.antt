-- ===== src/Deposits/Intents.antt =====
-- apps/api/src/deposits/deposits.service.ts: the deposits of customers and the top-ups of merchants.
use Prim.Native.String.{String}
use pay.Shared.{
  ℕ, ◌+◌, ◌*◌, ◌-◌, Bool, true, false, not, ◌&&◌, ◌||◌, Option, none, some, ◌or_default◌, str_eq,
  find, modify, create, Result, ok, ◌>>=◌, ◌>>◌, require, validation_error, active_intent_exists,
  conflict, any, ◌or_else◌,
}
use pay.Shared.Texts.{append, slice_last_four}
use pay.Shared.Int.{ℤ, pos, ◌+ℤ◌, ltb_ℤ}
use pay.Domain.{Environment, test, FinancialContext, same_owner}
use pay.Ledger.{Books, credit_deposit}
use pay.Store.{
  Db, DepositIntent, DepositStatus, MerchantConfig, SimWallet, SmsReceipt, ReceiptDirection,
  ReceiptType,
}
use pay.Withdrawals.{emit}
use pay.Sms.{deposit_event, has_provider_id}

pub data TestScenario : Type 0 where
  success wrong_amount late duplicate ambiguous : TestScenario

-- The fields of an initialize request that the service reads. The amount has gone through
-- `amountToMinor`.
pub record InitializeTransactionInput : Type 0 where
  pub tx_ref : String
  pub customer_id : String
  pub first_name : String
  pub last_name : Option String
  pub phone_number : String
  pub amount_minor : ℤ
  pub is_topup : Bool
  pub test_scenario : Option TestScenario

-- the row that `merchantConfig` makes, with the defaults of the schema
abbrev default_config : MerchantConfig
default_config = record {
  allow_alternate_withdrawal_phone = false;
  deposit_minimum_minor = pos 1000;
  deposit_maximum_minor = pos 500000000;
  wrong_amount_tolerance_minor = pos 0;
  deposit_countdown_seconds = 600;
  deposit_late_grace_seconds = 1800;
  gateway_fee_flat_minor = pos 0;
  reserve_provider_fee_minor = pos 10000;
}

abbrev pub config_or_default : Option MerchantConfig → MerchantConfig
config_or_default none = default_config
config_or_default (some c) = c

abbrev pub with_config : (merchant_id : ℕ) → Option MerchantConfig → Db → Db
with_config merchant none db = record db {
  merchant_configs = create merchant default_config db.merchant_configs;
}
with_config merchant (some c) db = db

-- `merchantConfig`, an upsert
unfoldable pub merchant_config : (merchant_id : ℕ) → Db → MerchantConfig × Db
merchant_config merchant db = (
  config_or_default (find merchant db.merchant_configs),
  with_config merchant (find merchant db.merchant_configs) db,
)

abbrev pub is_active : DepositStatus → Bool
is_active DepositStatus.awaiting_payment = true
is_active DepositStatus.late_grace = true
is_active DepositStatus.matching = true
is_active _ = false

-- an active deposit of the same customer
unfoldable pub is_active_of : FinancialContext → (customer_id : String) → DepositIntent → Bool
is_active_of auth customer d =
    same_owner auth d.owner && (str_eq customer d.customer_id && is_active d.status)

unfoldable pub within_limits : MerchantConfig → ℤ → Bool
within_limits config amount =
    not (ltb_ℤ amount config.deposit_minimum_minor || ltb_ℤ config.deposit_maximum_minor amount)

-- `${input.first_name} ${input.last_name ?? ''}`.trim(); `trim` is that of the language
unfoldable pub customer_name : (trim : String → String) → InitializeTransactionInput → String
unfolding append
customer_name trim input =
    trim (append input.first_name (append " " (input.last_name or_default "")))

-- the row that `initialize` creates
abbrev pub new_deposit :
    (now : ℕ)
    → (trim : String → String) → FinancialContext
    → InitializeTransactionInput
    → MerchantConfig
    → (sim : ℕ) → DepositIntent
new_deposit now trim auth input config sim = record {
  owner = auth;
  sim_wallet_id = sim;
  tx_ref = input.tx_ref;
  customer_id = input.customer_id;
  customer_name = customer_name trim input;
  customer_phone = input.phone_number;
  amount_minor = input.amount_minor;
  credited_amount_minor = none;
  status = DepositStatus.awaiting_payment;
  is_topup = input.is_topup;
  expires_at = now + config.deposit_countdown_seconds * 1000;
  late_grace_ends_at =
      now + config.deposit_countdown_seconds * 1000 + config.deposit_late_grace_seconds * 1000;
  matched_receipt_id = none;
  provider_transaction_id = none;
  created_at = now;
}

abbrev pub set_deposit : ℕ → (DepositIntent → DepositIntent) → Db → Db
set_deposit id f db = record db { deposits = modify id f db.deposits }

-- the simulator's payment; `provider_id` and `event_id` are its random ids
abbrev pub actual_minor : TestScenario → DepositIntent → ℤ
actual_minor wrong_amount d = d.amount_minor +ℤ pos 100
actual_minor _ d = d.amount_minor

abbrev pub simulated_receipt :
    (now event_id : ℕ) → (provider_id : String) → DepositIntent → ℤ → SmsReceipt
simulated_receipt now event_id provider_id d actual = record {
  event_id = event_id;
  sim_wallet_id = d.sim_wallet_id;
  direction = ReceiptDirection.incoming;
  type = ReceiptType.incoming_transfer;
  provider_transaction_id = some provider_id;
  amount_minor = some actual;
  counterparty_phone_prefix = none;
  counterparty_phone_suffix = some (slice_last_four d.customer_phone);
  counterparty_name = some d.customer_name;
  provider_occurred_at = some now;
  received_at = now;
}

abbrev pub first_copy :
    (now event_id : ℕ) → (provider_id : String) → DepositIntent → Db → Option ℕ × Db
first_copy now event_id provider_id d db = (
  some db.next_id,
  record db {
    receipts =
        create db.next_id (simulated_receipt now event_id provider_id d d.amount_minor) db.receipts;
    next_id = db.next_id + 1;
  },
)

-- The first copy of the simulated message is kept, where its provider id is new, and the second must
-- be suppressed: the insert of a row whose provider id is there is skipped.
abbrev pub keep_receipt :
    (now event_id : ℕ)
    → (provider_id : String) → TestScenario
    → DepositIntent
    → Db
    → Result (Option ℕ × Db)
keep_receipt now event_id provider_id duplicate d db =
    let kept = first_copy now event_id provider_id d db in
    require (not (has_provider_id (some provider_id) db.receipts)) conflict
    >> require (has_provider_id (some provider_id) kept.1.receipts) conflict
    >> ok kept
keep_receipt now event_id provider_id scenario d db = ok (none, db)

abbrev pub paid_in_test :
    (provider_id : String) → (actual : ℤ) → (receipt_id : Option ℕ) → DepositIntent → DepositIntent
paid_in_test provider_id actual receipt_id d = record d {
  status = DepositStatus.success;
  credited_amount_minor = some actual;
  provider_transaction_id = some provider_id;
  matched_receipt_id = receipt_id or_else d.matched_receipt_id;
}

abbrev pub receive_in_test : ℤ → SimWallet → SimWallet
receive_in_test x s = record s { main_balance_minor = s.main_balance_minor +ℤ x }

-- the rows after the payment, with the books of the credit
abbrev pub paid_rows :
    (provider_id : String)
    → TestScenario
    → (id : ℕ) → DepositIntent
    → (kept : Option ℕ × Db) → (books' : Books) → Db
paid_rows provider_id scenario id d (receipt_id, db) books' = emit (deposit_event id) (record db {
  books = books';
  sims = modify d.sim_wallet_id (receive_in_test (actual_minor scenario d)) db.sims;
  deposits = modify id (paid_in_test provider_id (actual_minor scenario d) receipt_id) db.deposits;
})

unfoldable pub pay_in_test :
    (now event_id : ℕ)
    → (provider_id : String) → TestScenario
    → (id : ℕ) → DepositIntent
    → Db
    → Result Db
pay_in_test now event_id provider_id scenario id d db = do
  kept ← keep_receipt now event_id provider_id scenario d db
  books' ← credit_deposit d.owner id (actual_minor scenario d) kept.1.books
  ok (paid_rows provider_id scenario id d kept books')

-- `applyTestScenario`
unfoldable pub apply_test_scenario :
    (now event_id : ℕ)
    → (provider_id : String) → TestScenario
    → (id : ℕ) → DepositIntent
    → Db
    → Result Db
apply_test_scenario now event_id provider_id late id d db = ok (
    set_deposit id (λ r. record r { status = DepositStatus.late_grace; expires_at = now - 1000 })
      db)
apply_test_scenario now event_id provider_id ambiguous id d db =
    ok (set_deposit id (λ r. record r { status = DepositStatus.manual_review }) db)
apply_test_scenario now event_id provider_id scenario id d db =
    pay_in_test now event_id provider_id scenario id d db

abbrev pub simulate :
    (now event_id : ℕ)
    → (provider_id : String) → Environment
    → Option TestScenario
    → (id : ℕ) → DepositIntent
    → Db
    → Result Db
simulate now event_id provider_id test (some scenario) id d db =
    apply_test_scenario now event_id provider_id scenario id d db
simulate now event_id provider_id _ _ id d db = ok db

abbrev pub insert_deposit : DepositIntent → Db → Db
insert_deposit d db = record db {
  deposits = create db.next_id d db.deposits;
  next_id = db.next_id + 1;
}

-- What `initialize` runs inside the idempotency record. `sim_choice` is what `selectForDeposit`
-- returned or threw.
unfoldable pub initialize :
    (now event_id : ℕ)
    → (provider_id : String) → (trim : String → String) → FinancialContext
    → InitializeTransactionInput
    → (sim_choice : Result ℕ) → Db
    → Result Db
initialize now event_id provider_id trim auth input sim_choice db = do
  let config = (merchant_config auth.merchant_id db).0
  let db' = (merchant_config auth.merchant_id db).1
  require (within_limits config input.amount_minor) validation_error
  require (not (any (λ x. is_active_of auth input.customer_id x.1) db'.deposits))
      active_intent_exists
  sim ← sim_choice
  let d = new_deposit now trim auth input config sim
  simulate now event_id provider_id auth.environment input.test_scenario db'.next_id d
      (insert_deposit d db')
