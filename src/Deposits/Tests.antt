-- ===== src/Deposits/Tests.antt =====
-- Deposits at concrete requests and times.
use Prim.Native.String.{String}
use pay.Shared.{
  ◌≡◌, refl, false, none, [], ◌∷◌, Result, ok, err, find, modify, modify_many, create, any,
  active_intent_exists, validation_error, arith,
}
use pay.Shared.Int.{pos, ◌+ℤ◌, ◌-ℤ◌}
use pay.Shared.Sorting.{filter, take}
use pay.Shared.Texts.{append}
use pay.Domain.{same_owner}
use pay.Ledger.Commands.{empty_books}
use pay.Store.{Db, DepositIntent, DepositStatus, TransferStatus, DeviceJobState}
use pay.Samples.{shop, after, db_in}
use pay.Withdrawals.{find_by}
use pay.Fleet.Maintenance.{
  is_silent, has_stale_balance, is_due_to, lapse_found, lapse_each, transition_deposits,
  update_health,
}
use pay.Deposits.Intents.{
  InitializeTransactionInput, customer_name, merchant_config, is_active_of, within_limits,
  pay_in_test, apply_test_scenario, initialize,
}
use pay.Deposits.Verification.{seen_as, verify_deposit}
use pay.Deposits.Lapsing.{verify_deposit-ignores_sweep}
use pay.Deposits.Opening.{HasOneActive, IsOpened, initialize-opens_one}

deposits : Unit {0}
unfolding initialize merchant_config is_active_of within_limits customer_name append pay_in_test
    apply_test_scenario seen_as verify_deposit same_owner find modify modify_many create any find_by
    is_silent has_stale_balance is_due_to lapse_found lapse_each transition_deposits update_health
    filter take ◌+ℤ◌ ◌-ℤ◌
deposits = tt

abbrev request : InitializeTransactionInput
request = record {
  tx_ref = "D-1";
  customer_id = "C-1";
  first_name = "Almaz";
  last_name = none;
  phone_number = "+251955667788";
  amount_minor = pos 2000;
  is_topup = false;
  test_scenario = none;
}

abbrev no_trim : String → String
no_trim s = s

-- an older deposit of the same customer, which nobody paid
abbrev old : DepositIntent
old = record {
  owner = shop;
  sim_wallet_id = 6;
  tx_ref = "D-0";
  customer_id = "C-1";
  customer_name = "Almaz";
  customer_phone = "+251955667788";
  amount_minor = pos 2000;
  credited_amount_minor = none;
  status = DepositStatus.expired;
  is_topup = false;
  expires_at = 600000;
  late_grace_ends_at = 800000;
  matched_receipt_id = none;
  provider_transaction_id = none;
  created_at = 0;
}

abbrev quiet_db : Db
quiet_db = record (db_in TransferStatus.accepted DeviceJobState.queued) {
  books = empty_books;
  transfers = [];
  deposits = (20, old) ∷ [];
  next_id = 30;
}

abbrev opened : Result Db
opened = initialize 1000000 1 "TX" no_trim shop request (ok 6) quiet_db

abbrev opened_db : Db
opened_db = after opened

-- the same customer again, and an amount under the minimum
asks_again :
    initialize 1000000 1 "TX" no_trim shop request (ok 6) opened_db ≡ err active_intent_exists
unfolding deposits
asks_again = refl

too_little :
    initialize 1000000 1 "TX" no_trim shop
      (record request { amount_minor = pos 999 })
      (ok 6)
      quiet_db
    ≡ err validation_error
unfolding deposits
too_little = refl

-- in time, in the grace, and after it
verified :
    (verify_deposit 1500000 shop "D-1" opened_db ≡ ok (30, DepositStatus.awaiting_payment))
    × (verify_deposit 1600000 shop "D-1" opened_db ≡ ok (30, DepositStatus.late_grace))
    × (verify_deposit 3400000 shop "D-1" opened_db ≡ ok (30, DepositStatus.expired))
unfolding deposits
verified = (refl, refl, refl)

initialize-opens_one_example :
    HasOneActive opened_db.deposits
    × ((d : DepositIntent) × IsOpened 1000000 1 "TX" no_trim shop request
          (ok 6)
          quiet_db
          opened_db
          d)
unfolding deposits
initialize-opens_one_example =
    initialize-opens_one 1000000 1 "TX" no_trim shop request (ok 6) quiet_db opened_db (tt, tt) refl

verify_deposit-ignores_sweep_example :
    verify_deposit 3500000 shop "D-1" (update_health 1700000 600000 opened_db)
    ≡ verify_deposit 3500000 shop "D-1" opened_db
unfolding deposits
verify_deposit-ignores_sweep_example =
    verify_deposit-ignores_sweep 1700000 3500000 600000 shop "D-1" opened_db (omega arith)
      ((refl, tt), (tt, tt)) (omega arith, (omega arith, tt))
