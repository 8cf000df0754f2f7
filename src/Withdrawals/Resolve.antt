-- ===== src/Withdrawals/Resolve.antt =====
-- apps/api/src/withdrawals/withdrawals.service.ts: `resolveUnknown`, where staff prove the outcome
-- of an unknown or reviewed transfer, and the receipt test that it rests on.
use Prim.Native.String.{String}
use pay.Shared.{
  ℕ, Bool, true, false, not, ◌&&◌, Option, none, some, List, [], ◌∷◌, ◌==◌, if◌then◌else◌, is_some,
  ◌or_else◌, modify, find, Result, ok, ◌>>=◌, ◌>>◌, require, or_throw, str_eq, not_found,
  invalid_state, validation_error,
}
use pay.Shared.Int.{ℤ, ◌+ℤ◌, ◌-ℤ◌, eqb_ℤ}
use pay.Domain.{ReconciliationCase, resolved}
use pay.Store.{
  Db, Transfer, TransferAttempt, TransferStatus, SimWallet, SmsReceipt, ReceiptDirection, incoming,
  outgoing, ReceiptType, outgoing_transfer, DeviceJobState, AttemptOutcome, BalanceSource,
  manual_evidence, manual_evidence_predicted, is_unresolved, AuditAction,
}
use pay.Parsers.Phone.{codes, matches_masked_ethiopian_phone}
use pay.Withdrawals.Funds.{
  physical_reservation, release_funds, settle_funds, release_sim, set_transfer, latest_attempt,
  transfer_event, emit, LinkedStatus, update_linked_operation, find_by, addis_financial_day,
  is_same_day,
}
use pay.Withdrawals.Simulator.{credit_treasury_if_internal}
use pay.Withdrawals.Staff.{is_open_case, audited}

abbrev pub is_text : Option String → String → Bool
is_text none text = false
is_text (some s) text = str_eq s text

abbrev pub is_amount : Option ℤ → ℤ → Bool
is_amount none x = false
is_amount (some a) x = eqb_ℤ a x

abbrev pub is_sim : Option ℕ → ℕ → Bool
is_sim none id = false
is_sim (some s) id = s == id

abbrev is_outgoing : ReceiptDirection → Bool
is_outgoing outgoing = true
is_outgoing incoming = false

abbrev is_outgoing_transfer : ReceiptType → Bool
is_outgoing_transfer outgoing_transfer = true
is_outgoing_transfer _ = false

-- both masks are there and not empty, and the destination fits them
abbrev masks_fit : String → Option String → Option String → Bool
masks_fit phone none suffix = false
masks_fit phone (some prefix) none = false
masks_fit phone (some prefix) (some suffix) =
    not (str_eq prefix "")
    && (not (str_eq suffix "")
        && matches_masked_ethiopian_phone (codes phone) (codes prefix) (codes suffix))

-- `outgoingReceiptAlreadyAppliedToWallet`
unfoldable pub receipt_already_applied : Transfer → Option SmsReceipt → String → Bool
receipt_already_applied t none provider_id = false
receipt_already_applied t (some r) provider_id =
    is_text r.provider_transaction_id provider_id
    && (is_sim t.sim_wallet_id r.sim_wallet_id
        && (is_outgoing r.direction
            && (is_outgoing_transfer r.type
                && (is_amount r.amount_minor t.amount_minor
                    && masks_fit t.destination_phone r.counterparty_phone_prefix
                        r.counterparty_phone_suffix))))

pub data ResolveOutcome : Type 0 where
  success failed : ResolveOutcome

pub record ResolveInput : Type 0 where
  pub outcome : ResolveOutcome
  pub provider_transaction_id : Option String
  pub resolved_name : Option String
  pub service_fee_minor : ℤ
  pub vat_minor : ℤ
  pub current_main_balance_minor : Option ℤ
  pub failure_evidence_reference : Option String
  pub reason : String

-- a text that is there and not empty
abbrev pub given : Option String → Bool
given none = false
given (some s) = not (str_eq s "")

-- `manualSuccessBalanceSource`
unfoldable pub manual_success_balance_source : Bool → BalanceSource
manual_success_balance_source true = manual_evidence
manual_success_balance_source false = manual_evidence_predicted

-- `currentMainBalanceMinor ?? { decrement: sentDelta }`
abbrev balance_after : Option ℤ → ℤ → ℤ → ℤ
balance_after none main sent = main -ℤ sent
balance_after (some balance) main sent = balance

-- the wallet after a proven success: where the SMS path has already applied the outflow it is not
-- counted again, and only a newer balance replaces the snapshot
unfoldable pub resolve_wallet :
    ℕ → Transfer → (actual_fee : ℤ) → (applied : Bool) → Option ℤ → SimWallet → SimWallet
unfolding manual_success_balance_source
resolve_wallet now t fee true none s = record s {
  reserved_balance_minor = s.reserved_balance_minor -ℤ physical_reservation t;
}
resolve_wallet now t fee true (some balance) s = record s {
  reserved_balance_minor = s.reserved_balance_minor -ℤ physical_reservation t;
  main_balance_minor = balance;
  last_balance_at = some now;
  last_balance_source = some (manual_success_balance_source true);
}
resolve_wallet now t fee false balance s =
    let sent : ℤ = t.amount_minor +ℤ fee in
    record s {
      reserved_balance_minor = s.reserved_balance_minor -ℤ physical_reservation t;
      main_balance_minor = balance_after balance s.main_balance_minor sent;
      sent_today_minor =
          if is_same_day now s.financial_day then s.sent_today_minor +ℤ sent else sent;
      financial_day = some (addis_financial_day now);
      last_balance_at = some now;
      last_balance_source = some (manual_success_balance_source (is_some balance));
    }

-- `transfer.attempts[0]` gets the outcome, and its job, where it has one, the state
unfoldable pub finish_attempt :
    ℕ → DeviceJobState → AttemptOutcome → Option String → Option (ℕ × TransferAttempt) → Db → Db
finish_attempt now state outcome code none db = db
finish_attempt now state outcome code (some (id, a)) db =
    let attempts' =
      modify id
        (λ (b : TransferAttempt). record b {
          completed_at = some now;
          outcome = some outcome;
          error_code = elim code [ none ↦ b.error_code | some c ↦ some c ];
        })
        db.attempts in
    elim a.device_job_id [
      | none ↦ record db { attempts = attempts' }
      | some job_id ↦ record db {
        attempts = attempts';
        jobs =
            modify job_id
              (λ j. record j {
                state = state;
                completed_at = some now;
                error_code = elim code [ none ↦ j.error_code | some c ↦ some c ];
              })
              db.jobs;
      }
    ]

abbrev resolve_cases : ℕ → List ReconciliationCase → List ReconciliationCase
resolve_cases id [] = []
resolve_cases id (c ∷ cs) =
    (if (id == c.reference_id) && is_open_case c.status then record c { status = resolved } else c)
    ∷ resolve_cases id cs

-- `finishManualResolution`
unfoldable pub finish_manual_resolution : ℕ → ℕ → String → Db → Db
finish_manual_resolution id actor reason db =
    audited actor AuditAction.manual_resolution id reason
      (record db { books = record (db.books) { cases = resolve_cases id db.books.cases } })

abbrev pub receipt_of : String → Db → Option SmsReceipt
receipt_of provider_id db =
    elim (find_by (λ r. is_text r.provider_transaction_id provider_id) db.receipts) [
      | none ↦ none
      | some (_, r) ↦ some r
    ]

abbrev pub mark_proven : ℕ → ResolveInput → String → Transfer → Transfer
mark_proven now input provider_id t = record t {
  status = TransferStatus.success;
  provider_transaction_id = some provider_id;
  resolved_name = input.resolved_name or_else t.resolved_name;
  provider_fee_minor = some input.service_fee_minor;
  provider_vat_minor = some input.vat_minor;
  completed_at = some now;
}

-- the success branch of `resolveUnknown`
unfoldable pub resolve_success : ℕ → ℕ → ResolveInput → ℕ → Transfer → ℕ → Db → Result Db
resolve_success now id input actor t sim db = do
  provider_id ← or_throw input.provider_transaction_id validation_error
  require (not (str_eq provider_id "")) validation_error
  let receipt = receipt_of provider_id db
  let applied = receipt_already_applied t receipt provider_id
  require (not (is_some receipt && not applied)) validation_error
  let fee = input.service_fee_minor +ℤ input.vat_minor
  books' ← settle_funds id t fee db.books
  ok (
      emit (transfer_event id TransferStatus.success) (
        update_linked_operation now id LinkedStatus.success (
          finish_manual_resolution id actor input.reason (
            finish_attempt now DeviceJobState.succeeded AttemptOutcome.success none
              (latest_attempt id db.attempts)
              (set_transfer id (mark_proven now input provider_id) (
                credit_treasury_if_internal t (record db {
                  books = books';
                  sims =
                      modify sim (resolve_wallet now t fee applied input.current_main_balance_minor)
                        db.sims;
                })))))))

-- the failure branch of `resolveUnknown`
unfoldable pub resolve_failed : ℕ → ℕ → ResolveInput → ℕ → Transfer → ℕ → Db → Result Db
resolve_failed now id input actor t sim db = do
  books' ← release_funds id t db.books
  ok (
      emit (transfer_event id TransferStatus.failed) (
        update_linked_operation now id LinkedStatus.failed (
          finish_manual_resolution id actor input.reason (
            finish_attempt now DeviceJobState.failed AttemptOutcome.failed
              (some "MANUALLY_PROVEN_FAILED") (latest_attempt id db.attempts)
              (set_transfer id
                (λ r. record r { status = TransferStatus.failed; completed_at = some now })
                (release_sim (some sim) (physical_reservation t)
                  (record db { books = books' })))))))

abbrev pub is_failed_outcome : ResolveOutcome → Bool
is_failed_outcome ResolveOutcome.failed = true
is_failed_outcome ResolveOutcome.success = false

-- `resolveUnknown`
unfoldable pub resolve_unknown : ℕ → ℕ → ResolveInput → ℕ → Db → Result Db
resolve_unknown now id input actor db = do
  t ← or_throw (find id db.transfers) not_found
  require (is_unresolved t.status) invalid_state
  require
      (not (
        is_failed_outcome input.outcome
        && (is_some t.committed_at && not (given input.failure_evidence_reference))))
      validation_error
  sim ← or_throw t.sim_wallet_id invalid_state
  (if is_failed_outcome input.outcome
      then resolve_failed now id input actor t sim db
      else resolve_success now id input actor t sim db)
