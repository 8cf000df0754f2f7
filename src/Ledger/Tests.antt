-- ===== src/Ledger/Tests.antt =====
-- Runs of the ledger at concrete books, and the theorems about it at the same books.
use pay.Shared.{
  ◌≡◌, refl, any, List, [], ◌∷◌, ok, err, arith, Result, insufficient_merchant_balance,
}
use pay.Shared.Int.{ℤ, pos, ◌+ℤ◌, ◌-ℤ◌}
use pay.Domain.{live, FinancialContext, same_owner}
use pay.Ledger.Accounts.{
  LedgerCode, LedgerAccount, treasury_custody, provider_fees, suspense, available, reserved,
  custody, platform_fees, Books, balance, ensure_accounts, available_minor, same_account,
}
use pay.Ledger.Journal.{post, post_entry, post_entries}
use pay.Ledger.Operations.{
  restore_released_withdrawal, SettlementValues, provider_fee_adjustment, credit_deposit,
  reserve_withdrawal, settle_withdrawal, move_receipt_to_suspense, release_suspense_to_merchant,
  record_fee_overrun, release_withdrawal_reservation,
}
use pay.Ledger.Effects.{effect, entry_postings}
use pay.Ledger.TrialBalance.{at, holdings, claims}
use pay.Ledger.Commands.{
  Command, credit_deposit_of, reserve, settle, release_suspense, suspend, run, run_all, empty_books,
  history-IsBalanced, history-Reconciles,
}
use pay.Ledger.Repeat.{run-repeat}
use pay.Ledger.LateSuccess.{late_success-settles}
use pay.Ledger.Settlement.{
  of, settle_withdrawal-total, reserve-settle, reserved_total, actual_total,
}

abbrev shop : FinancialContext
shop = record { merchant_id = 7; environment = live }

abbrev other : FinancialContext
other = record { merchant_id = 8; environment = live }

-- A fee of 130 where 100 was reserved: an overrun of 30.
abbrev values : SettlementValues
values = record {
  amount_minor = pos 5000;
  reserved_provider_fee_minor = pos 100;
  actual_provider_fee_minor = pos 130;
  gateway_fee_minor = pos 20;
}

abbrev history : List Command
history =
    credit_deposit_of shop 1 (pos 9000)
    ∷ credit_deposit_of shop 1 (pos 9000)
    ∷ reserve shop 2 (pos 5120)
    ∷ reserve shop 3 (pos 5120)
    ∷ settle shop 2 values
    ∷ suspend shop 4 (pos 11)
    ∷ release_suspense shop other 5 (pos 11)
    ∷ []

ledger : Unit {0}
unfolding run_all run credit_deposit move_receipt_to_suspense release_suspense_to_merchant
    reserve_withdrawal settle_withdrawal release_withdrawal_reservation restore_released_withdrawal
    record_fee_overrun provider_fee_adjustment post post_entries post_entry ensure_accounts balance
    available_minor any same_account same_owner ◌+ℤ◌ ◌-ℤ◌
ledger = tt

abbrev after : Result Books → Books
after (ok b) = b
after (err _) = empty_books

abbrev funded : Books
funded = after (run (credit_deposit_of shop 1 (pos 9000)) empty_books)

abbrev held : Books
held = after (reserve_withdrawal shop 2 (reserved_total values) funded)

abbrev settled : Books
settled = after (settle_withdrawal shop 2 values held)

-- The second credit is a replay, and the second reservation is refused.
history_balances :
    (of shop available (run_all history empty_books) ≡ pos 3850)
    × (of shop reserved (run_all history empty_books) ≡ pos 0)
    × (of other available (run_all history empty_books) ≡ pos 11)
unfolding ledger
history_balances = (refl, refl, refl)

over_reserve : reserve_withdrawal shop 3 (pos 9001) funded ≡ err insufficient_merchant_balance
unfolding ledger
over_reserve = refl

history-IsBalanced_example :
    holdings shop (run_all history empty_books) ≡ claims shop (run_all history empty_books)
history-IsBalanced_example = history-IsBalanced history shop

history-Reconciles_example :
    balance (at shop custody) (run_all history empty_books).accounts
    ≡ effect (at shop custody) (entry_postings (run_all history empty_books).entries)
history-Reconciles_example = history-Reconciles history (at shop custody)

-- the same deposit is credited again after the whole history
run-repeat_example :
    run (credit_deposit_of shop 1 (pos 9000)) (run_all history funded) ≡ ok (run_all history funded)
unfolding ledger
run-repeat_example =
    run-repeat history funded (credit_deposit_of shop 1 (pos 9000)) empty_books tt refl

reserve-settle_example :
    (of shop reserved settled ≡ of shop reserved funded)
    × (of shop available settled ≡ of shop available funded -ℤ actual_total values)
    × (of shop custody settled
        ≡ of shop custody funded -ℤ (values.amount_minor +ℤ values.actual_provider_fee_minor))
    × (of shop platform_fees settled ≡ of shop platform_fees funded +ℤ values.gateway_fee_minor)
unfolding ledger
reserve-settle_example = reserve-settle shop 2 values funded held settled refl refl refl refl

settle_withdrawal-total_example : (b : Books) × (settle_withdrawal shop 2 values held ≡ ok b)
settle_withdrawal-total_example =
    settle_withdrawal-total shop 2 values held (omega arith) (omega arith) (omega arith)
      (omega arith)

-- books in which 5120 of 9000 are reserved, written out
abbrev row : LedgerCode → ℤ → LedgerAccount
row code amount = record { key = at shop code; balance_minor = amount }

abbrev reserved_books : Books
reserved_books = record empty_books {
  accounts =
      row available (pos 3880)
      ∷ row reserved (pos 5120)
      ∷ row custody (pos 9000)
      ∷ row treasury_custody (pos 0)
      ∷ row provider_fees (pos 0)
      ∷ row platform_fees (pos 0)
      ∷ row suspense (pos 0)
      ∷ [];
}

abbrev released : Books
released = after (release_withdrawal_reservation shop 2 (reserved_total values) reserved_books)

abbrev restored : Books
restored = after (restore_released_withdrawal shop 2 (reserved_total values) released)

abbrev settled_late : Books
settled_late = after (settle_withdrawal shop 2 values restored)

abbrev settled_directly : Books
settled_directly = after (settle_withdrawal shop 2 values reserved_books)

late_success-settles_example : of shop available settled_late ≡ of shop available settled_directly
unfolding ledger
late_success-settles_example =
    late_success-settles shop 2 values reserved_books released restored settled_late
      settled_directly refl refl refl refl refl refl refl available
