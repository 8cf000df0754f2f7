-- ===== src/Samples.antt =====
-- One payout at a concrete database, with the SIM and the device that it goes through: the data that
-- the tests of the services share.
use pay.Shared.{none, some, [], ◌∷◌, true, Result, ok, err}
use pay.Shared.Int.{pos}
use pay.Domain.{FinancialContext, live}
use pay.Ledger.{Books, credit_deposit, reserve_withdrawal}
use pay.Ledger.Commands.{empty_books}
use pay.Store.{
  Db, Transfer, TransferAttempt, TransferStatus, DeviceJob, DeviceJobState, DeviceJobType,
  merchant_debit, SimWallet, SimStatus, Device, DeviceStatus, DeviceGroup,
}

abbrev pub shop : FinancialContext
shop = record { merchant_id = 7; environment = live }

abbrev pub payout_in : TransferStatus → Transfer
payout_in s = record {
  owner = shop;
  sim_wallet_id = some 6;
  reference = "W-1";
  destination_phone = "+251911223344";
  expected_name = "Abebe Kebede";
  resolved_name = none;
  amount_minor = pos 5000;
  reserve_provider_fee_minor = pos 100;
  gateway_fee_minor = pos 20;
  provider_fee_minor = none;
  provider_vat_minor = none;
  financial_mode = merchant_debit;
  operation_kind = DeviceJobType.customer_withdrawal;
  status = s;
  provider_transaction_id = none;
  committed_at = none;
  estimated_completion_at = some 70000;
  completed_at = none;
}

abbrev pub attempt : TransferAttempt
attempt = record {
  transfer_id = 3;
  attempt_number = 1;
  fencing_token = 9;
  device_job_id = some 1;
  started_at = none;
  committed_at = none;
  completed_at = none;
  outcome = none;
  error_code = none;
}

abbrev pub job_in : DeviceJobState → DeviceJob
job_in s = record {
  type = DeviceJobType.customer_withdrawal;
  state = s;
  priority = 500;
  device_id = some 5;
  sim_wallet_id = 6;
  profile_version = "2";
  transfer_id = some 3;
  financial_operation_id = none;
  approved_provider_name = none;
  attempt = 1;
  fencing_token = 9;
  lease_owner = some 5;
  lease_expires_at = some 145000;
  expires_at = 900000;
  created_at = 100000;
  started_at = none;
  committed_at = none;
  completed_at = none;
  error_code = none;
}

abbrev pub sim : SimWallet
sim = record {
  phone_number = "+251944000006";
  device_id = 5;
  status = SimStatus.active;
  main_balance_minor = pos 90000;
  reserved_balance_minor = pos 5100;
  incentive_balance_minor = pos 0;
  fuel_balance_minor = pos 0;
  pocket_money_balance_minor = pos 0;
  sent_today_minor = pos 0;
  received_today_minor = pos 0;
  financial_day = none;
  last_balance_at = some 100000;
  last_balance_source = none;
  last_sms_at = none;
  next_fencing_token = 9;
}

abbrev pub phone : Device
phone = record {
  group_id = 4;
  status = DeviceStatus.online;
  hardware_serial = none;
  last_heartbeat_at = some 100000;
  last_permissions_ok = true;
  last_accessibility_ok = true;
  active_ussd_job_id = some 1;
}

abbrev pub fleet : DeviceGroup
fleet = record {
  code = "ADDIS";
  daily_limit_minor = pos 1000000;
  wallet_ceiling_minor = pos 5000000;
  safety_balance_minor = pos 1000;
  safety_headroom_minor = pos 1000;
}

-- 9000 deposited, 5120 of them reserved for the payout
abbrev pub books_of : Result Books → Books
books_of (ok b) = b
books_of (err e) = empty_books

abbrev pub funded_books : Books
funded_books = books_of (credit_deposit shop 1 (pos 9000) empty_books)

abbrev pub held_books : Books
held_books = books_of (reserve_withdrawal shop 3 (pos 5120) funded_books)

abbrev pub db_in : TransferStatus → DeviceJobState → Db
db_in status s = record {
  books = held_books;
  sims = (6, sim) ∷ [];
  transfers = (3, payout_in status) ∷ [];
  attempts = (2, attempt) ∷ [];
  jobs = (1, job_in s) ∷ [];
  devices = (5, phone) ∷ [];
  groups = (4, fleet) ∷ [];
  settlements = [];
  sweep_rules = [];
  sweeps = [];
  group_policies = [];
  treasury = [];
  receipts = [];
  deposits = [];
  merchant_configs = [];
  snapshots = [];
  outbox = [];
  audit = [];
  inbox = [];
  sms_inbox = [];
  next_id = 10;
}

abbrev pub after : Result Db → Db
after (ok db) = db
after (err e) = db_in TransferStatus.accepted DeviceJobState.queued
