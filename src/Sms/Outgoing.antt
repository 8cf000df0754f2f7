-- ===== src/Sms/Outgoing.antt =====
-- apps/api/src/sms/sms-ingestion.service.ts: `matchOutgoing`. The provider's own word on a payout
-- settles the one transfer that it names, also where staff had released it.
use Prim.Native.String.{String}
use pay.Shared.{
  ℕ, ◌+◌, Bool, true, false, not, ◌&&◌, ◌||◌, Option, none, some, [], ◌∷◌, ◌==◌, ltb, leb,
  if◌then◌else◌, ◌or_default◌, Table, find, modify, Result, ok, ◌>>=◌,
}
use pay.Shared.Int.{ℤ, pos, ◌+ℤ◌, eqb_ℤ}
use pay.Shared.Sorting.{filter, take, sort}
use pay.Domain.{NameDecision, CaseType, outflow, receipt}
use pay.Ledger.{Books, restore_released_withdrawal, restore_released_internal_move_fee}
use pay.Store.{
  Db, DeviceJob, Transfer, TransferAttempt, TransferStatus, merchant_debit, internal_move,
  SimWallet, SimStatus, AttemptOutcome,
}
use pay.Parsers.Phone.{codes, ends_with, matches_masked_ethiopian_phone}
use pay.Withdrawals.{
  ledger_reservation, physical_reservation, settle_funds, set_transfer, latest_attempt, emit,
  transfer_event, LinkedStatus, update_linked_operation, credit_treasury_if_internal, is_text,
  is_sim, unreserve,
}
use pay.Sms.Rules.{OutgoingTransferSms, transaction_balance_mutation, decrement}
use pay.Sms.Wallet.{
  CorrelationStatus, unmatched, ambiguous, update_wallet_counters, with_case, ids_of,
}
use pay.Sms.Balance.{succeed_job}
use pay.Sms.Incoming.{is_matching}

-- the statuses of the query: a failed transfer can still be contradicted
abbrev pub is_payout_status : TransferStatus → Bool
is_payout_status TransferStatus.committed = true
is_payout_status TransferStatus.provider_pending = true
is_payout_status TransferStatus.unknown = true
is_payout_status TransferStatus.failed = true
is_payout_status TransferStatus.success = true
is_payout_status _ = false

-- committed between thirty minutes before the message and five minutes after it
abbrev pub in_commit_window : (occurred_at : ℕ) → Option ℕ → Bool
in_commit_window occurred none = false
in_commit_window occurred (some at) = leb occurred (at + 1800000) && leb at (occurred + 300000)

unfoldable pub is_payout_row :
    (sim : ℕ) → OutgoingTransferSms → (occurred_at : ℕ) → ℕ × Transfer → Bool
is_payout_row sim m occurred (_, t) =
    (is_sim t.sim_wallet_id sim && eqb_ℤ t.amount_minor m.amount_minor)
    && (is_payout_status t.status
        && (ends_with (codes m.receiver_phone_suffix) (codes t.destination_phone)
            && in_commit_window occurred t.committed_at))

abbrev at_or_zero : Option ℕ → ℕ
at_or_zero o = o or_default 0

abbrev pub is_later_commit : ℕ × Transfer → ℕ × Transfer → Bool
is_later_commit y x = ltb (at_or_zero x.1.committed_at) (at_or_zero y.1.committed_at)

-- the last 100 payouts of the SIM that the message can be about
unfoldable pub payout_rows :
    (sim : ℕ) → OutgoingTransferSms → (occurred_at : ℕ) → Table Transfer → Table Transfer
payout_rows sim m occurred transfers =
    take 100 (sort is_later_commit (filter (is_payout_row sim m occurred) transfers))

abbrev pub is_success : TransferStatus → Bool
is_success TransferStatus.success = true
is_success _ = false

abbrev pub is_failed_transfer : TransferStatus → Bool
is_failed_transfer TransferStatus.failed = true
is_failed_transfer _ = false

abbrev pub actual_provider_fee : OutgoingTransferSms → ℤ
actual_provider_fee m = m.service_fee_minor +ℤ m.vat_minor

-- the message's whole outflow
abbrev pub total_outflow : OutgoingTransferSms → ℤ
total_outflow m = m.amount_minor +ℤ m.service_fee_minor +ℤ m.vat_minor

-- the outflow that no single transfer explains leaves the wallet, and the SIM leaves service
abbrev pub quarantine_outflow : (now occurred_at : ℕ) → OutgoingTransferSms → SimWallet → SimWallet
quarantine_outflow now occurred m = update_wallet_counters now (total_outflow m) (pos 0) (λ s.
    record (transaction_balance_mutation occurred m.current_main_balance_minor (total_outflow m)
      decrement s) { status = SimStatus.quarantined })

-- the merchant of all the rows, where they have but one
unfoldable all_of_merchant : ℕ → Table Transfer → Bool
all_of_merchant id [] = true
all_of_merchant id ((_, t) ∷ rest) = (t.owner.merchant_id == id) && all_of_merchant id rest

abbrev single_merchant : Table Transfer → Option ℕ
single_merchant [] = none
single_merchant ((_, t) ∷ rest) =
    if all_of_merchant t.owner.merchant_id rest then some t.owner.merchant_id else none

abbrev main_balance_of : Option SimWallet → ℤ
main_balance_of none = pos 0
main_balance_of (some s) = s.main_balance_minor

abbrev outflow_status : (matches : Table Transfer) → CorrelationStatus
outflow_status [] = unmatched
outflow_status (x ∷ xs) = ambiguous

abbrev outflow_case : CorrelationStatus → CaseType
outflow_case ambiguous = CaseType.ambiguous_payout_sms
outflow_case _ = CaseType.unmatched_payout_sms

-- not exactly one transfer: no journal is written
unfoldable pub hold_outflow :
    (now sim receipt_id : ℕ)
    → OutgoingTransferSms
    → (occurred_at : ℕ) → (rows matches : Table Transfer) → Db
    → Db
unfolding all_of_merchant
hold_outflow now sim receipt_id m occurred rows matches db =
    let sims' = modify sim (quarantine_outflow now occurred m) db.sims in
    with_case (single_merchant rows) (outflow_case (outflow_status matches)) receipt_id
      (outflow (ids_of rows) (ids_of matches) (total_outflow m) (main_balance_of (find sim db.sims))
        (main_balance_of (find sim sims')))
      (record db { sims = sims' })

-- what staff had released is held again, by the financial mode
unfoldable pub restore_funds : ℕ → Transfer → Books → Result Books
restore_funds id t = elim t.financial_mode [
  | merchant_debit ↦ restore_released_withdrawal t.owner id (ledger_reservation t)
  | internal_move ↦ restore_released_internal_move_fee t.owner id t.reserve_provider_fee_minor
]

-- the books that the settlement starts from
unfoldable pub books_before : (released : Bool) → ℕ → Transfer → Books → Result Books
books_before true id t b = restore_funds id t b
books_before false id t b = ok b

abbrev pub mark_paid : (now : ℕ) → OutgoingTransferSms → Transfer → Transfer
mark_paid now m t = record t {
  status = TransferStatus.success;
  resolved_name = some m.receiver_name;
  provider_fee_minor = some m.service_fee_minor;
  provider_vat_minor = some m.vat_minor;
  provider_transaction_id = some m.provider_transaction_id;
  completed_at = some now;
}

-- the settled outflow: the reservation goes with it, unless staff had released it before
unfoldable pub pay_from_wallet :
    (now occurred_at : ℕ)
    → OutgoingTransferSms
    → (released : Bool) → Transfer
    → SimWallet
    → SimWallet
pay_from_wallet now occurred m true t =
    update_wallet_counters now (t.amount_minor +ℤ actual_provider_fee m) (pos 0) (
      transaction_balance_mutation occurred m.current_main_balance_minor
        (t.amount_minor +ℤ actual_provider_fee m) decrement)
pay_from_wallet now occurred m false t =
    update_wallet_counters now (t.amount_minor +ℤ actual_provider_fee m) (pos 0) (λ s.
      unreserve (physical_reservation t) (
        transaction_balance_mutation occurred m.current_main_balance_minor
          (t.amount_minor +ℤ actual_provider_fee m) decrement s))

abbrev pub end_attempt : (now : ℕ) → TransferAttempt → TransferAttempt
end_attempt now a = record a { completed_at = some now; outcome = some AttemptOutcome.success }

abbrev pub succeed_found : (now id job_id : ℕ) → Option DeviceJob → Db → Db
succeed_found now id job_id none db = db
succeed_found now id job_id (some j) db = record (succeed_job now job_id j db) {
  attempts = modify id (end_attempt now) db.attempts;
}

abbrev pub succeed_named : (now id : ℕ) → (job_id : Option ℕ) → Db → Db
succeed_named now id none db = db
succeed_named now id (some job_id) db = succeed_found now id job_id (find job_id db.jobs) db

-- the latest attempt and its job succeed, where the attempt has a job
unfoldable pub succeed_attempt : (now : ℕ) → Option (ℕ × TransferAttempt) → Db → Db
succeed_attempt now none db = db
succeed_attempt now (some (id, a)) db = succeed_named now id a.device_job_id db

abbrev pub with_late_case : (released : Bool) → ℕ → Transfer → (receipt_id : ℕ) → Db → Db
with_late_case false id t receipt_id db = db
with_late_case true id t receipt_id db =
    with_case (some t.owner.merchant_id) CaseType.late_success_after_manual_failure id
      (receipt receipt_id) db

-- exactly one transfer that has not been settled by this very message
unfoldable pub settle_outgoing :
    (now sim receipt_id : ℕ)
    → OutgoingTransferSms
    → (occurred_at : ℕ) → (id : ℕ) → Transfer
    → Db
    → Result Db
settle_outgoing now sim receipt_id m occurred id t db = do
  let released = is_failed_transfer t.status
  held ← books_before released id t db.books
  let noted = with_late_case released id t receipt_id (record db { books = held })
  books' ← settle_funds id t (actual_provider_fee m) noted.books
  ok (
      update_linked_operation now id LinkedStatus.success (
        emit (transfer_event id TransferStatus.success) (
          succeed_attempt now (latest_attempt id db.attempts) (
            credit_treasury_if_internal t (
              set_transfer id (mark_paid now m) (record noted {
                books = books';
                sims = modify sim (pay_from_wallet now occurred m released t) db.sims;
              }))))))

-- what `matchOutgoing` reports
pub record OutgoingMatch : Type 0 where
  pub matched_reference : Option String
  pub status : Option CorrelationStatus

abbrev pub matched_to : Transfer → OutgoingMatch
matched_to t = record { matched_reference = some t.reference; status = none }

abbrev pub not_matched : CorrelationStatus → OutgoingMatch
not_matched s = record { matched_reference = none; status = some s }

unfoldable pub settle_match :
    (now sim receipt_id : ℕ)
    → OutgoingTransferSms
    → (occurred_at : ℕ) → (rows matches : Table Transfer) → Db
    → Result (OutgoingMatch × Db)
settle_match now sim receipt_id m occurred rows [] db =
    ok (not_matched unmatched, hold_outflow now sim receipt_id m occurred rows [] db)
settle_match now sim receipt_id m occurred rows ((id, t) ∷ []) db =
    if is_success t.status && is_text t.provider_transaction_id m.provider_transaction_id
    then ok (matched_to t, db)
    else (settle_outgoing now sim receipt_id m occurred id t db >>= λ db'. ok (matched_to t, db'))
settle_match now sim receipt_id m occurred rows (x ∷ y ∷ rest) db =
    ok (not_matched ambiguous, hold_outflow now sim receipt_id m occurred rows (x ∷ y ∷ rest) db)

-- `comparePersonNames`, its decision
module _ (compare_person_names : String → String → NameDecision) where
  unfoldable pub is_payout_match : OutgoingTransferSms → ℕ × Transfer → Bool
  is_payout_match m (_, t) =
      matches_masked_ethiopian_phone (codes t.destination_phone) (codes m.receiver_phone_prefix)
        (codes m.receiver_phone_suffix)
      && (is_matching
            (compare_person_names (t.resolved_name or_default t.expected_name) m.receiver_name)
          && (not (is_success t.status)
              || is_text t.provider_transaction_id m.provider_transaction_id))

  unfoldable pub payout_matches :
      (sim : ℕ) → OutgoingTransferSms → (occurred_at : ℕ) → Db → Table Transfer
  payout_matches sim m occurred db =
      filter (is_payout_match m) (payout_rows sim m occurred db.transfers)

  -- `matchOutgoing`, at the time that `effectiveProviderOccurredAt` gives
  unfoldable pub match_outgoing :
      (now sim receipt_id : ℕ)
      → OutgoingTransferSms
      → (occurred_at : ℕ) → Db
      → Result (OutgoingMatch × Db)
  match_outgoing now sim receipt_id m occurred db =
      settle_match now sim receipt_id m occurred (payout_rows sim m occurred db.transfers)
        (payout_matches sim m occurred db) db
