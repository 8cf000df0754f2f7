-- ===== src/Settlements/Tests.antt =====
-- The review of a settlement at a concrete database.
use Prim.Native.String.{String}
use pay.Shared.{
  ℕ, false, ◌≡◌, refl, none, some, [], ◌∷◌, find, create, modify, Result, ok, err, any, arith,
  insufficient_merchant_balance, invalid_state,
}
use pay.Shared.Int.{pos, ◌+ℤ◌, ◌-ℤ◌}
use pay.Shared.Texts.{append}
use pay.Domain.{same_owner}
use pay.Samples.{shop, sim, db_in, after, funded_books}
use pay.Ledger.{
  credit_deposit, reserve_withdrawal, post, post_entries, post_entry, ensure_accounts, balance,
  available_minor, same_account,
}
use pay.Store.{
  Db, Transfer, DeviceJob, DeviceJobType, TransferStatus, DeviceJobState, SettlementRequest,
  SettlementStatus, MerchantConfig,
}
use pay.Contracts.{
  digits, length, zeros, pad_start, but_last_two, last_two, minor_to_amount, is_fraction, is_tail,
  is_amount_text, without_point, value, amount_to_minor,
}
use pay.Withdrawals.{queue_transfer, dispatch, enqueue_job, reserve_funds}
use pay.Settlements.Review.{
  approve, reject, dispatch_settlement, link_transfer, can_review_settlement, dispatched_as,
  settlement_transfer_reference,
}
use pay.Withdrawals.Queueing.{IsWaiting}
use pay.Settlements.Dispatch.{approve-dispatches_once}

settlements : Unit {0}
unfolding approve reject dispatch_settlement link_transfer can_review_settlement dispatched_as
    settlement_transfer_reference append digits length zeros pad_start but_last_two last_two
    minor_to_amount is_fraction is_tail is_amount_text without_point value amount_to_minor
    queue_transfer dispatch enqueue_job reserve_funds reserve_withdrawal credit_deposit post
    post_entries post_entry ensure_accounts balance available_minor any same_account same_owner find
    create modify ◌+ℤ◌ ◌-ℤ◌
settlements = tt

abbrev config : MerchantConfig
config = record {
  allow_alternate_withdrawal_phone = false;
  deposit_minimum_minor = pos 1000;
  deposit_maximum_minor = pos 500000000;
  wrong_amount_tolerance_minor = pos 0;
  deposit_countdown_seconds = 600;
  deposit_late_grace_seconds = 1800;
  gateway_fee_flat_minor = pos 20;
  reserve_provider_fee_minor = pos 100;
}

abbrev asked : SettlementRequest
asked = record {
  owner = shop;
  transfer_id = none;
  reference = "S-1";
  destination_phone = "+251911000000";
  expected_name = "Shop Owner";
  amount_minor = pos 3000;
  requested_by = 2;
  reviewed_by = none;
  review_reason = none;
  reviewed_at = none;
  status = SettlementStatus.requested;
}

abbrev asking_db : Db
asking_db = record (db_in TransferStatus.accepted DeviceJobState.queued) {
  books = funded_books;
  transfers = [];
  settlements = (80, asked) ∷ [];
  next_id = 90;
}

abbrev approved_db : Db
approved_db = after (approve 5000 80 "80" "paid out" 4 config "" (ok 6) asking_db)

-- more than the merchant has
too_much :
    approve 5000 80 "80" "paid out" 4 config ""
      (ok 6)
      (record asking_db { settlements = (80, record asked { amount_minor = pos 9000 }) ∷ [] })
    ≡ err insufficient_merchant_balance
unfolding settlements
too_much = refl

approve-dispatches_once_example :
    (reserve_withdrawal shop 90 (pos 3120) funded_books ≡ ok approved_db.books)
    × ((t : Transfer) × (find 90 approved_db.transfers ≡ some t)
        × (t.status ≡ TransferStatus.queued)
        × (t.owner ≡ shop)
        × (t.sim_wallet_id ≡ some 6)
        × (t.destination_phone ≡ "+251911000000")
        × (t.expected_name ≡ "Shop Owner")
        × (t.amount_minor ≡ pos 3000))
    × ((j : DeviceJob) × (find 91 approved_db.jobs ≡ some j)
        × (j.type ≡ DeviceJobType.merchant_settlement)
        × IsWaiting 90 6 sim 1 none j)
    × (find 80 approved_db.settlements
        ≡ some (record asked {
          transfer_id = some 90;
          reviewed_by = some 4;
          review_reason = some "paid out";
          reviewed_at = some 5000;
          status = SettlementStatus.dispatched;
        }))
    × ((now' reviewer' : ℕ) (reason' provider_id' : String) (choice : Result ℕ)
        → approve now' 80 "80" reason' reviewer' config provider_id' choice approved_db
          ≡ ok approved_db)
    × ((now' reviewer' : ℕ) (reason' : String)
        → reject now' 80 reason' reviewer' approved_db ≡ err invalid_state)
unfolding settlements
approve-dispatches_once_example =
    approve-dispatches_once 5000 80 "80" "paid out" 4 config "" 6 asking_db approved_db asked sim
      3000 refl refl refl refl (omega arith) refl refl
