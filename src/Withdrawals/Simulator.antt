-- ===== src/Withdrawals/Simulator.antt =====
-- apps/api/src/withdrawals/withdrawals.service.ts: the simulator of the test environment,
-- `applyTestScenario` and `finalizeTest`.
use Prim.Native.String.{String}
use pay.Shared.{
  ℕ, ◌&&◌, Option, none, some, ◌∷◌, if◌then◌else◌, modify, modify_many, Result, ok, ◌>>=◌, str_eq,
}
use pay.Shared.Int.{ℤ, pos, ◌+ℤ◌, ◌-ℤ◌}
use pay.Domain.{same_environment, unknown_payout, opened, simulator}
use pay.Store.{Db, Transfer, TransferStatus, merchant_debit, internal_move, SimWallet}
use pay.Withdrawals.Funds.{
  physical_reservation, release_funds, settle_funds, release_sim, set_transfer, transfer_event,
  emit, LinkedStatus, update_linked_operation, addis_financial_day, is_same_day,
}

pub data TestScenario : Type 0 where
  success explicit_failure unknown delay : TestScenario

-- the three outcomes of `finalizeTest`
pub data TestOutcome : Type 0 where
  success failed unknown : TestOutcome

abbrev mark_success : ℕ → String → Transfer → Transfer
mark_success now provider_id t = record t {
  status = TransferStatus.success;
  provider_fee_minor = some (pos 87);
  provider_vat_minor = some (pos 13);
  provider_transaction_id = some provider_id;
  completed_at = some now;
}

abbrev pub credit_treasury : Transfer → Db → Db
credit_treasury t db = record db {
  treasury =
      modify_many
        (λ w.
          same_environment w.environment t.owner.environment
          && str_eq w.phone_number t.destination_phone)
        (λ w. record w { predicted_balance_minor = w.predicted_balance_minor +ℤ t.amount_minor })
        db.treasury;
}

-- `if (transfer.financialMode === 'internal_move')` the treasury wallet receives the principal
abbrev pub credit_treasury_if_internal : Transfer → Db → Db
credit_treasury_if_internal t db = elim t.financial_mode [
  | merchant_debit ↦ db
  | internal_move ↦ credit_treasury t db
]

-- the outflow of a simulated success, counted to the wallet's financial day
abbrev simulate_outflow : ℕ → Transfer → SimWallet → SimWallet
simulate_outflow now t s =
    let sent : ℤ = t.amount_minor +ℤ pos 100 in
    record s {
      reserved_balance_minor = s.reserved_balance_minor -ℤ physical_reservation t;
      main_balance_minor = s.main_balance_minor -ℤ sent;
      sent_today_minor =
          if is_same_day now s.financial_day then s.sent_today_minor +ℤ sent else sent;
      financial_day = some (addis_financial_day now);
    }

-- `finalizeTest`; the provider fee of the simulator is 100
unfoldable pub finalize_test : ℕ → ℕ → Transfer → ℕ → String → TestOutcome → Db → Result Db
finalize_test now id t sim provider_id TestOutcome.unknown db = ok (
    emit (transfer_event id TransferStatus.unknown) (
      update_linked_operation now id LinkedStatus.unknown
        (record (set_transfer id (λ r. record r { status = TransferStatus.unknown }) db) {
          books = record (db.books) {
            cases =
                record {
                  merchant_id = some (t.owner.merchant_id);
                  type = unknown_payout;
                  status = opened;
                  reference_id = id;
                  evidence = simulator;
                }
                ∷ db.books.cases;
          };
        })))
finalize_test now id t sim provider_id TestOutcome.failed db = do
  books' ← release_funds id t db.books
  ok (
      emit (transfer_event id TransferStatus.failed) (
        update_linked_operation now id LinkedStatus.failed (
          set_transfer id
            (λ r. record r { status = TransferStatus.failed; completed_at = some now })
            (release_sim (some sim) (physical_reservation t) (record db { books = books' })))))
finalize_test now id t sim provider_id TestOutcome.success db = do
  books' ← settle_funds id t (pos 100) db.books
  ok (
      update_linked_operation now id LinkedStatus.success (
        emit (transfer_event id TransferStatus.success) (
          set_transfer id (mark_success now provider_id) (
            credit_treasury_if_internal t
              (record db { books = books'; sims = modify sim (simulate_outflow now t) db.sims })))))

-- `applyTestScenario`
unfoldable pub apply_test_scenario : ℕ → ℕ → Transfer → ℕ → String → TestScenario → Db → Result Db
apply_test_scenario now id t sim provider_id TestScenario.delay db =
    ok (set_transfer id (λ r. record r { status = TransferStatus.queued }) db)
apply_test_scenario now id t sim provider_id TestScenario.explicit_failure db =
    finalize_test now id t sim provider_id TestOutcome.failed db
apply_test_scenario now id t sim provider_id TestScenario.success db =
    finalize_test now id t sim provider_id TestOutcome.success db
apply_test_scenario now id t sim provider_id TestScenario.unknown db =
    finalize_test now id t sim provider_id TestOutcome.unknown db

abbrev pub scenario_or_success : Option TestScenario → TestScenario
scenario_or_success none = TestScenario.success
scenario_or_success (some s) = s
