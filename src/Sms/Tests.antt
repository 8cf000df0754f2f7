-- ===== src/Sms/Tests.antt =====
-- Runs of the matching of provider messages at a concrete database, and the theorems about them.
use Prim.Native.String.{String}
use pay.Shared.{
  ◌⊎◌, ◌==◌, All, ◌≡◌, refl, false, Option, none, some, [], ◌∷◌, Result, ok, err, find, modify,
  create, modify_many, any, if◌then◌else◌, ◌or_default◌, str_eq,
}
use pay.Shared.Int.{pos, ◌+ℤ◌, ◌-ℤ◌}
use pay.Shared.Sorting.{filter, take, insert, sort}
use pay.Domain.{FinancialContext, live, same_owner, NameDecision}
use pay.Samples.{shop, payout_in, sim, db_in, held_books, books_of}
use pay.Parsers.Phone.{matches_masked_ethiopian_phone}
use pay.Ledger.{
  Books, credit_deposit, move_receipt_to_suspense, reserve_withdrawal,
  release_withdrawal_reservation, restore_released_withdrawal, settle_withdrawal,
  record_fee_overrun, provider_fee_adjustment, post, post_entries, post_entry, ensure_accounts,
  balance, available_minor, same_account,
}
use pay.Ledger.Commands.{empty_books}
use pay.Store.{
  Db, Transfer, TransferStatus, DeviceJobState, DepositIntent, DepositStatus, SimWallet, SimStatus,
}
use pay.Withdrawals.{
  find_by, settle_funds, latest_attempt, update_linked_operation, addis_financial_day, is_same_day,
}
use pay.Withdrawals.Resolution.{SameLedger}
use pay.Sms.Rules.{
  IncomingTransferSms, OutgoingTransferSms, transaction_balance_mutation, is_before,
  deposit_status_allows_provider_time_match,
}
use pay.Sms.Wallet.{update_wallet_counters, unmatched}
use pay.Sms.Incoming.{
  match_incoming, settle_incoming, credit_match, suspend_receipt, suspense_owner, all_owned_by,
  review_all, strong_deposits, strong_deposit_match, payable_deposits, is_payable_row, is_potential,
}
use pay.Sms.Outgoing.{
  OutgoingMatch, matched_to, not_matched, match_outgoing, settle_match, settle_outgoing,
  hold_outflow, books_before, restore_funds, mark_paid, pay_from_wallet, payout_matches,
  payout_rows, is_payout_row, is_payout_match, succeed_attempt, total_outflow,
}
use pay.Sms.Amounts.{IsReceived, IsPaidOut, IsHeld}
use pay.Sms.Payouts.{
  match_outgoing-settles, match_outgoing-settles_once, match_outgoing-quarantines,
}
use pay.Sms.Deposited.{IsPaidBy, match_incoming-credits, match_incoming-suspends}

unfoldable pub sms : Unit {0}
unfolding match_incoming settle_incoming credit_match suspend_receipt suspense_owner all_owned_by
    review_all strong_deposits strong_deposit_match payable_deposits is_payable_row is_potential
    match_outgoing settle_match settle_outgoing hold_outflow books_before restore_funds
    pay_from_wallet payout_matches payout_rows is_payout_row is_payout_match succeed_attempt
    transaction_balance_mutation deposit_status_allows_provider_time_match update_wallet_counters
    filter take insert sort find modify create modify_many find_by latest_attempt
    update_linked_operation addis_financial_day settle_funds credit_deposit move_receipt_to_suspense
    reserve_withdrawal release_withdrawal_reservation restore_released_withdrawal settle_withdrawal
    record_fee_overrun provider_fee_adjustment post post_entries post_entry ensure_accounts balance
    available_minor any same_account same_owner matches_masked_ethiopian_phone ◌+ℤ◌ ◌-ℤ◌
sms = tt

-- names that agree letter by letter
abbrev pub same_name : String → String → NameDecision
same_name expected observed =
    if str_eq expected observed then NameDecision.matching else NameDecision.mismatch

abbrev pub paid_message : OutgoingTransferSms
paid_message = record {
  amount_minor = pos 5000;
  receiver_name = "Abebe Kebede";
  receiver_phone_suffix = "3344";
  receiver_phone_prefix = "2519";
  provider_transaction_id = "TX7";
  provider_occurred_at = some 1060000;
  service_fee_minor = pos 80;
  vat_minor = pos 10;
  current_main_balance_minor = some (pos 84910);
}

-- the payout of the samples, committed at one million, that staff have failed since
abbrev failed_payout : Transfer
failed_payout = record (payout_in TransferStatus.failed) { committed_at = some 1000000 }

abbrev released_books : Books
released_books = books_of (release_withdrawal_reservation shop 3 (pos 5120) held_books)

abbrev failed_db : Db
failed_db = record (db_in TransferStatus.failed DeviceJobState.failed) {
  books = released_books;
  transfers = (3, failed_payout) ∷ [];
}

abbrev pub db_of : {A : Type 0} → Result (A × Db) → Db
db_of (ok (_, db)) = db
db_of (err e) = failed_db

abbrev late_result : Result (OutgoingMatch × Db)
late_result = match_outgoing same_name 1070000 6 12 paid_message 1060000 failed_db

abbrev late_db : Db
late_db = db_of late_result

late_is_settled : late_result ≡ ok (matched_to failed_payout, late_db)
unfolding sms
late_is_settled = refl

match_outgoing-settles_once_example :
    match_outgoing same_name 1090000 6 13 paid_message 1060000 late_db
    ≡ ok (matched_to (mark_paid 1070000 paid_message failed_payout), late_db)
unfolding sms
match_outgoing-settles_once_example =
    match_outgoing-settles_once same_name 1070000 6 12 paid_message 1060000 failed_db late_db sim
      refl 3 failed_payout refl refl (matched_to failed_payout) 1090000 13 1060000
      (mark_paid 1070000 paid_message failed_payout) refl refl refl

-- the released funds are held again, then settled; the wallet had given up its reservation
match_outgoing-settles_example :
    (held : Books) × (noted : Books) × (b : Books) × (s' : SimWallet) × (some
        failed_payout.reference
      ≡ some failed_payout.reference)
    × IsHeld 3 failed_payout released_books held sim s'
    × SameLedger held noted
    × (settle_withdrawal failed_payout.owner 3
          (record {
            amount_minor = failed_payout.amount_minor;
            reserved_provider_fee_minor = failed_payout.reserve_provider_fee_minor;
            actual_provider_fee_minor = paid_message.service_fee_minor +ℤ paid_message.vat_minor;
            gateway_fee_minor = failed_payout.gateway_fee_minor;
          })
          noted
        ≡ ok b)
    × SameLedger b late_db.books
    × (find 6 late_db.sims ≡ some s')
    × IsPaidOut 1070000 1060000 paid_message
        (failed_payout.amount_minor +ℤ (paid_message.service_fee_minor +ℤ paid_message.vat_minor))
        sim
        s'
    × (find 3 late_db.transfers
        ≡ some (record failed_payout {
          status = TransferStatus.success;
          resolved_name = some paid_message.receiver_name;
          provider_fee_minor = some paid_message.service_fee_minor;
          provider_vat_minor = some paid_message.vat_minor;
          provider_transaction_id = some paid_message.provider_transaction_id;
          completed_at = some 1070000;
        }))
unfolding sms
match_outgoing-settles_example =
    match_outgoing-settles same_name 1070000 6 12 paid_message 1060000 failed_db late_db sim refl 3
      failed_payout refl refl (matched_to failed_payout) refl refl

abbrev strange_message : OutgoingTransferSms
strange_message = record paid_message { receiver_name = "Somebody Else" }

abbrev strange_db : Db
strange_db = db_of (match_outgoing same_name 1070000 6 12 strange_message 1060000 failed_db)

match_outgoing-quarantines_example :
    ◌≡◌ {A = Option String} none none
    × SameLedger failed_db.books strange_db.books
    × (strange_db.transfers ≡ failed_db.transfers)
    × ((s' : SimWallet) × (find 6 strange_db.sims ≡ some s')
        × (s'.status ≡ SimStatus.quarantined)
        × (s'.sent_today_minor
            ≡ (if is_same_day 1070000 sim.financial_day then sim.sent_today_minor else pos 0)
              +ℤ total_outflow strange_message)
        × (s'.main_balance_minor ≡ (
            if is_before 1060000 sim.last_balance_at
            then sim.main_balance_minor
            else strange_message.current_main_balance_minor
              or_default (sim.main_balance_minor -ℤ total_outflow strange_message)))
        × (s'.reserved_balance_minor ≡ sim.reserved_balance_minor))
unfolding sms
match_outgoing-quarantines_example =
    match_outgoing-quarantines same_name 1070000 6 12 strange_message 1060000 failed_db strange_db
      sim refl (not_matched unmatched) refl refl

abbrev pub topup : DepositIntent
topup = record {
  owner = shop;
  sim_wallet_id = 6;
  tx_ref = "D-1";
  customer_id = "C-1";
  customer_name = "Almaz Tadesse";
  customer_phone = "+251955667788";
  amount_minor = pos 700;
  credited_amount_minor = none;
  status = DepositStatus.expired;
  is_topup = false;
  expires_at = 1600000;
  late_grace_ends_at = 3400000;
  matched_receipt_id = none;
  provider_transaction_id = none;
  created_at = 1000000;
}

abbrev pub received_message : IncomingTransferSms
received_message = record {
  amount_minor = pos 700;
  sender_name = "Almaz Tadesse";
  sender_phone_suffix = "7788";
  sender_phone_prefix = "2519";
  provider_transaction_id = "RX1";
  provider_occurred_at = some 1100000;
  current_main_balance_minor = none;
}

abbrev pub waiting_db : Db
waiting_db = record failed_db { books = empty_books; deposits = (20, topup) ∷ [] }

abbrev credited_db : Db
credited_db = db_of (match_incoming same_name 99 5000000 6 12 received_message 1100000 waiting_db)

late_deposit_is_credited :
    match_incoming same_name 99 5000000 6 12 received_message 1100000 waiting_db
    ≡ ok (some "D-1", credited_db)
unfolding sms
late_deposit_is_credited = refl

match_incoming-credits_example :
    (some topup.tx_ref ≡ some topup.tx_ref)
    × IsPaidBy same_name 6 received_message 1100000 waiting_db.merchant_configs topup
    × (credit_deposit topup.owner 20 received_message.amount_minor waiting_db.books
        ≡ ok credited_db.books)
    × (find 20 credited_db.deposits
        ≡ some (record topup {
          status = DepositStatus.success;
          credited_amount_minor = some received_message.amount_minor;
          matched_receipt_id = some 12;
          provider_transaction_id = some received_message.provider_transaction_id;
        }))
    × ((s' : SimWallet) × (find 6 credited_db.sims ≡ some s')
        × IsReceived 5000000 1100000 received_message sim s')
unfolding sms
match_incoming-credits_example =
    match_incoming-credits same_name 6 received_message 1100000 99 5000000 12 waiting_db credited_db
      (some topup.tx_ref) 20 topup sim refl refl refl late_deposit_is_credited

abbrev late_message : IncomingTransferSms
late_message = record received_message { provider_occurred_at = some 3400001 }

abbrev suspended_db : Db
suspended_db = db_of (match_incoming same_name 99 5000000 6 12 late_message 3400001 waiting_db)

-- one millisecond after the grace, the money goes into suspense
match_incoming-suspends_example :
    ◌≡◌ {A = Option String} none none
    × ((o : FinancialContext) × (b : Books) × (move_receipt_to_suspense o 12
            late_message.amount_minor waiting_db.books
          ≡ ok b)
        × SameLedger b suspended_db.books
        × ((o ≡ record { merchant_id = 99; environment = live })
            ⊎ All
                (λ x. o ≡ x.1.owner)
                (filter
                  (is_potential late_message)
                  (payable_deposits 6 3400001 waiting_db.deposits))))
    × (find 20 suspended_db.deposits
        ≡ some (
            if any (λ x. x.0 == 20) (strong_deposits same_name 6 late_message 3400001 waiting_db)
            then record topup { status = DepositStatus.manual_review }
            else topup))
    × ((s' : SimWallet) × (find 6 suspended_db.sims ≡ some s')
        × IsReceived 5000000 3400001 late_message sim s')
unfolding sms
match_incoming-suspends_example =
    match_incoming-suspends same_name 6 late_message 3400001 99 5000000 12 waiting_db suspended_db
      none sim 20 topup refl refl refl refl
