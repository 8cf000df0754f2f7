-- ===== src/Withdrawals/QueueTests.antt =====
-- Runs of the queue and of the retry at a concrete database, and the theorems about them there.
use Prim.Native.String.{String}
use pay.Shared.{
  ℕ, ◌≡◌, refl, false, none, some, [], ◌∷◌, Result, ok, err, find, modify, modify_many, create, any,
  insufficient_merchant_balance,
}
use pay.Shared.Int.{pos, ◌+ℤ◌, ◌-ℤ◌}
use pay.Domain.{same_owner, receiver_name_review, opened, names, uncertain}
use pay.Samples.{shop, sim, db_in, after}
use pay.Ledger.{
  credit_deposit, reserve_withdrawal, post, post_entries, post_entry, ensure_accounts, balance,
  available_minor, same_account,
}
use pay.Store.{
  MerchantConfig, Db, Transfer, DeviceJob, customer_withdrawal, TransferStatus, DeviceJobState,
}
use pay.Withdrawals.Funds.{latest_attempt}
use pay.Withdrawals.Queue.{
  TransferInput, customer_options, reserve_funds, enqueue_job, dispatch, queue_transfer,
}
use pay.Withdrawals.Staff.{approve_name_and_retry, approvable_name, open_name_review}
use pay.Withdrawals.Queueing.{IsOrdered, IsWaiting, queue_transfer-reserves}

abbrev input_of : ℕ → TransferInput
input_of amount = record {
  reference = "W-2";
  account_number = "+251955667788";
  expected_name = "Almaz Tadesse";
  amount_minor = pos amount;
  is_alternate = false;
  test_scenario = none;
}

abbrev config : MerchantConfig
config = record {
  allow_alternate_withdrawal_phone = false;
  deposit_minimum_minor = pos 1000;
  deposit_maximum_minor = pos 500000000;
  wrong_amount_tolerance_minor = pos 0;
  deposit_countdown_seconds = 600;
  deposit_late_grace_seconds = 1800;
  gateway_fee_flat_minor = pos 20;
  reserve_provider_fee_minor = pos 100;
}

queues : Unit {0}
unfolding queue_transfer dispatch enqueue_job reserve_funds reserve_withdrawal credit_deposit post
    post_entries post_entry ensure_accounts balance available_minor any same_account same_owner find
    modify modify_many create ◌+ℤ◌ ◌-ℤ◌ approve_name_and_retry approvable_name open_name_review
    latest_attempt
queues = tt

abbrev start_db : Db
start_db = db_in TransferStatus.queued DeviceJobState.queued

abbrev queue : ℕ → Result Db
queue amount =
    queue_transfer 120000 shop (input_of amount) customer_options config "" (ok 6) start_db

too_much : queue 3761 ≡ err insufficient_merchant_balance
unfolding queues
too_much = refl

queue_transfer-reserves_example :
    let x = after (queue 1000) in
    (reserve_withdrawal shop 10 (pos 1120) start_db.books ≡ ok x.books)
    × (find 6 x.sims
        ≡ some (record sim {
          reserved_balance_minor = sim.reserved_balance_minor +ℤ pos 1100;
          next_fencing_token = 10;
        }))
    × ((t : Transfer) × (find 10 x.transfers ≡ some t) × IsOrdered shop (input_of 1000) config 6 t)
    × ((j : DeviceJob) × (find 11 x.jobs ≡ some j)
        × (j.type ≡ customer_withdrawal)
        × (j.priority ≡ 500)
        × IsWaiting 10 6 sim 1 none j)
unfolding queues
queue_transfer-reserves_example =
    queue_transfer-reserves 120000 shop (input_of 1000) customer_options config "" 6 start_db
      (after (queue 1000)) sim refl refl refl

abbrev base_db : Db
base_db = db_in TransferStatus.manual_review DeviceJobState.cancelled

-- the handset saw another spelling of the name
abbrev review_db : Db
review_db = record base_db {
  books = record (base_db.books) {
    cases =
        record {
          merchant_id = some 7;
          type = receiver_name_review;
          status = opened;
          reference_id = 3;
          evidence = names "Abebe Kebede" "Abebe Kebedde" uncertain 1;
        }
        ∷ [];
  };
}

abbrev no_trim : String → String
no_trim s = s

abbrev retried : Db
retried = after (approve_name_and_retry no_trim 130000 3 "same person" 1 review_db)
