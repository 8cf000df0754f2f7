-- ===== src/Withdrawals/Tests.antt =====
-- Runs of the withdrawal handlers at a concrete database, and the theorems about them there.
use pay.Shared.{
  ◌≡◌, refl, true, false, not, ◌&&◌, none, some, [], ◌∷◌, Result, ok, err, find, modify,
  modify_many, any, is_some, invalid_state,
}
use pay.Shared.Int.{pos, ◌+ℤ◌, ◌-ℤ◌}
use pay.Domain.{same_owner}
use pay.Samples.{payout_in, sim, db_in, after, held_books}
use pay.Parsers.Phone.{matches_masked_ethiopian_phone}
use pay.Ledger.{
  Books, credit_deposit, reserve_withdrawal, release_withdrawal_reservation, settle_withdrawal,
  record_fee_overrun, provider_fee_adjustment, post, post_entries, post_entry, ensure_accounts,
  balance, available_minor, same_account,
}
use pay.Store.{
  SimWallet, Db, TransferStatus, DeviceJobState, outgoing, outgoing_transfer, is_before_start,
  is_unresolved,
}
use pay.Withdrawals.Funds.{
  find_by, release_funds, settle_funds, physical_reservation, latest_attempt,
  update_linked_operation, addis_financial_day,
}
use pay.Withdrawals.Staff.{cancel_before_start, close_attempt, job_allows, is_queued_job, job_of}
use pay.Withdrawals.Resolve.{
  ResolveInput, ResolveOutcome, resolve_unknown, resolve_success, resolve_failed, resolve_wallet,
  finish_attempt, finish_manual_resolution, receipt_already_applied, given,
  manual_success_balance_source,
}
use pay.Withdrawals.Releases.{cancel_before_start-releases}
use pay.Withdrawals.Resolution.{SameLedger, status_of}
use pay.Withdrawals.Manual.{IsCountedOnce, resolve_unknown-releases, resolve_unknown-counts_once}

withdrawals : Unit {0}
unfolding cancel_before_start close_attempt resolve_unknown resolve_success resolve_failed
    resolve_wallet finish_attempt finish_manual_resolution receipt_already_applied
    manual_success_balance_source find modify modify_many find_by ◌+ℤ◌ ◌-ℤ◌ latest_attempt
    update_linked_operation addis_financial_day release_funds settle_funds reserve_withdrawal
    credit_deposit release_withdrawal_reservation settle_withdrawal record_fee_overrun
    provider_fee_adjustment post post_entries post_entry ensure_accounts balance available_minor any
    same_account same_owner matches_masked_ethiopian_phone
withdrawals = tt

abbrev queued_db : Db
queued_db = db_in TransferStatus.queued DeviceJobState.queued

abbrev cancelled : Result Db
cancelled = cancel_before_start 120000 3 "asked by the merchant" 1 queued_db

-- a payout that a device has had cannot be cancelled
cancel_started :
    cancel_before_start 120000 3 "too late" 1
      (db_in TransferStatus.queued DeviceJobState.device_started)
    ≡ err invalid_state
unfolding withdrawals
cancel_started = refl

cancel_before_start-releases_example :
    let t = payout_in TransferStatus.queued in
    (is_before_start t.status ≡ true)
    × (job_allows is_queued_job (job_of (latest_attempt 3 queued_db.attempts) queued_db) ≡ true)
    × (release_funds 3 t held_books ≡ ok (after cancelled).books)
    × (find 6 (after cancelled).sims
        ≡ some (record sim {
          reserved_balance_minor = sim.reserved_balance_minor -ℤ physical_reservation t;
        }))
    × (find 3 (after cancelled).transfers
        ≡ some (record t { status = TransferStatus.cancelled; completed_at = some 120000 }))
unfolding withdrawals
cancel_before_start-releases_example =
    cancel_before_start-releases 120000 3 "asked by the merchant" 1 queued_db (after cancelled)
      (payout_in TransferStatus.queued) 6 sim refl refl refl refl

abbrev unknown_db : Db
unknown_db = record (db_in TransferStatus.unknown DeviceJobState.unknown) {
  receipts =
      (
        8,
        record {
          event_id = 40;
          sim_wallet_id = 6;
          direction = outgoing;
          type = outgoing_transfer;
          provider_transaction_id = some "TX9";
          amount_minor = some (pos 5000);
          counterparty_phone_prefix = some "2519";
          counterparty_phone_suffix = some "3344";
          counterparty_name = none;
          provider_occurred_at = none;
          received_at = 100000;
        },
      )
      ∷ [];
}

abbrev proof_of : ResolveOutcome → ResolveInput
proof_of o = record {
  outcome = o;
  provider_transaction_id = some "TX9";
  resolved_name = none;
  service_fee_minor = pos 80;
  vat_minor = pos 12;
  current_main_balance_minor = none;
  failure_evidence_reference = some "call 17";
  reason = "checked with the provider";
}

abbrev resolve : ResolveOutcome → Result Db
resolve o = resolve_unknown 130000 3 (proof_of o) 1 unknown_db

resolve_unknown-releases_example :
    let t = payout_in TransferStatus.unknown in
    let x = after (resolve ResolveOutcome.failed) in
    (is_unresolved t.status ≡ true)
    × ((is_some t.committed_at && not (given (some "call 17"))) ≡ false)
    × ((b : Books) × (release_funds 3 t held_books ≡ ok b) × SameLedger b x.books)
    × (find 6 x.sims
        ≡ some (record sim {
          reserved_balance_minor =
              sim.reserved_balance_minor -ℤ (t.amount_minor +ℤ t.reserve_provider_fee_minor);
        }))
    × (status_of (find 3 x.transfers) ≡ some TransferStatus.failed)
unfolding withdrawals
resolve_unknown-releases_example =
    resolve_unknown-releases 130000 3 (proof_of ResolveOutcome.failed) 1 6 unknown_db
      (after (resolve ResolveOutcome.failed)) (payout_in TransferStatus.unknown) sim refl refl refl
      refl refl

resolve_unknown-counts_once_example :
    let t = payout_in TransferStatus.unknown in
    let x = after (resolve ResolveOutcome.success) in
    (is_unresolved t.status ≡ true)
    × ((b : Books) × (settle_withdrawal t.owner 3
            (record {
              amount_minor = t.amount_minor;
              reserved_provider_fee_minor = t.reserve_provider_fee_minor;
              actual_provider_fee_minor = pos 80 +ℤ pos 12;
              gateway_fee_minor = t.gateway_fee_minor;
            })
            held_books
          ≡ ok b)
        × SameLedger b x.books)
    × ((s' : SimWallet) × (find 6 x.sims ≡ some s')
        × IsCountedOnce 130000 true none
            (t.amount_minor +ℤ (pos 80 +ℤ pos 12))
            (t.amount_minor +ℤ t.reserve_provider_fee_minor)
            sim
            s')
    × (status_of (find 3 x.transfers) ≡ some TransferStatus.success)
unfolding withdrawals
resolve_unknown-counts_once_example =
    resolve_unknown-counts_once 130000 3 (proof_of ResolveOutcome.success) 1 6 unknown_db
      (after (resolve ResolveOutcome.success)) (payout_in TransferStatus.unknown) sim refl refl refl
      "TX9" true refl refl refl refl
