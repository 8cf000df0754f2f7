-- ===== src/Ledger/Operations.antt =====
-- apps/api/src/ledger/ledger.service.ts: one function for each operation of the service. A result
-- `err` is a throw, which rolls the transaction back.
use pay.Shared.{
  ℕ, some, List, [], ◌∷◌, ◌++◌, if◌then◌else◌, Result, ok, ◌>>=◌, ◌>>◌, require,
  crosses_environments, insufficient_merchant_balance,
}
use pay.Shared.Int.{ℤ, pos, ◌+ℤ◌, ◌-ℤ◌, ltb_ℤ, leb_ℤ}
use pay.Domain.{same_environment, FinancialContext, provider_fee_overrun, opened, fees}
use pay.Ledger.Accounts.{
  LedgerCode, available, reserved, custody, treasury_custody, platform_fees, suspense, Direction,
  debit, credit, Posting, deposit, receipt_suspense, suspense_resolution, withdrawal_reservation,
  internal_move_fee_reservation, withdrawal_settlement, internal_move_fee_settlement,
  withdrawal_release, internal_move_fee_release, withdrawal_late_rereservation,
  internal_move_fee_late_rereservation, Books, ensure_accounts, available_minor,
}
use pay.Ledger.Journal.{post}

-- `providerFeeAdjustment`
pub record FeeAdjustment : Type 0 where
  pub refund : ℤ
  pub overrun : ℤ

unfoldable pub provider_fee_adjustment : (reserved_total actual_total : ℤ) → FeeAdjustment
provider_fee_adjustment reserved_total actual_total =
    if leb_ℤ actual_total reserved_total
    then record { refund = reserved_total -ℤ actual_total; overrun = pos 0 }
    else record { refund = pos 0; overrun = actual_total -ℤ reserved_total }

abbrev pub line : FinancialContext → LedgerCode → Direction → ℤ → Posting
line owner code d amount = record {
  account = record { owner = owner; code = code };
  direction = d;
  amount_minor = amount;
}

-- the `push` of a refund or of an overrun onto `available`
abbrev pub adjustment_lines : FinancialContext → FeeAdjustment → List Posting
adjustment_lines auth a =
    (if ltb_ℤ (pos 0) a.refund then line auth available credit a.refund ∷ [] else [])
    ++ (if ltb_ℤ (pos 0) a.overrun then line auth available debit a.overrun ∷ [] else [])

unfoldable pub credit_deposit : FinancialContext → ℕ → ℤ → Books → Result Books
credit_deposit auth deposit_id amount b =
    post auth.environment deposit deposit_id
      (line auth custody debit amount ∷ line auth available credit amount ∷ [])
      (ensure_accounts auth b)

unfoldable pub move_receipt_to_suspense : FinancialContext → ℕ → ℤ → Books → Result Books
move_receipt_to_suspense auth receipt_id amount b =
    post auth.environment receipt_suspense receipt_id
      (line auth custody debit amount ∷ line auth suspense credit amount ∷ [])
      (ensure_accounts auth b)

-- the liability is released, and custody follows it to the other owner
abbrev pub suspense_lines : (source target : FinancialContext) → ℤ → List Posting
suspense_lines source target amount =
    line source suspense debit amount
    ∷ line target available credit amount
    ∷ line source custody credit amount
    ∷ line target custody debit amount
    ∷ []

unfoldable pub release_suspense_to_merchant :
    (source target : FinancialContext) → ℕ → ℤ → Books → Result Books
release_suspense_to_merchant source target resolution_id amount b = do
  require (same_environment source.environment target.environment) crosses_environments
  post target.environment suspense_resolution resolution_id (suspense_lines source target amount)
      (ensure_accounts target (ensure_accounts source b))

unfoldable pub reserve_withdrawal : FinancialContext → ℕ → ℤ → Books → Result Books
reserve_withdrawal auth transfer_id total_minor b = do
  let b' = ensure_accounts auth b
  require (leb_ℤ total_minor (available_minor auth b')) insufficient_merchant_balance
  post auth.environment withdrawal_reservation transfer_id
      (line auth available debit total_minor ∷ line auth reserved credit total_minor ∷ []) b'

unfoldable pub reserve_internal_move_fee : FinancialContext → ℕ → ℤ → Books → Result Books
reserve_internal_move_fee auth transfer_id fee b = do
  let b' = ensure_accounts auth b
  require (leb_ℤ fee (available_minor auth b')) insufficient_merchant_balance
  post auth.environment internal_move_fee_reservation transfer_id
      (line auth available debit fee ∷ line auth reserved credit fee ∷ []) b'

-- `recordFeeOverrun`
unfoldable pub record_fee_overrun : FinancialContext → ℕ → (reserved actual : ℤ) → Books → Books
record_fee_overrun auth transfer_id reserved_fee actual_fee b = record b {
  cases =
      record {
        merchant_id = some (auth.merchant_id);
        type = provider_fee_overrun;
        status = opened;
        reference_id = transfer_id;
        evidence = fees reserved_fee actual_fee (actual_fee -ℤ reserved_fee);
      }
      ∷ b.cases;
}

pub record SettlementValues : Type 0 where
  pub amount_minor : ℤ
  pub reserved_provider_fee_minor : ℤ
  pub actual_provider_fee_minor : ℤ
  pub gateway_fee_minor : ℤ

-- the refund or the overrun of `settleWithdrawal`
abbrev pub settlement_adjustment : SettlementValues → FeeAdjustment
settlement_adjustment v =
    provider_fee_adjustment (v.amount_minor +ℤ v.reserved_provider_fee_minor +ℤ v.gateway_fee_minor)
      (v.amount_minor +ℤ v.actual_provider_fee_minor +ℤ v.gateway_fee_minor)

abbrev pub settlement_lines : FinancialContext → SettlementValues → List Posting
settlement_lines auth v =
    line auth reserved debit
      (v.amount_minor +ℤ v.reserved_provider_fee_minor +ℤ v.gateway_fee_minor)
    ∷ line auth custody credit v.amount_minor
    ∷ line auth custody credit v.actual_provider_fee_minor
    ∷ line auth platform_fees credit v.gateway_fee_minor
    ∷ adjustment_lines auth (settlement_adjustment v)

unfoldable pub settle_withdrawal : FinancialContext → ℕ → SettlementValues → Books → Result Books
settle_withdrawal auth transfer_id v b = do
  let a = settlement_adjustment v
  b' ←
      post auth.environment withdrawal_settlement transfer_id (settlement_lines auth v)
        (ensure_accounts auth b)
  ok (
      if ltb_ℤ (pos 0) a.overrun
      then record_fee_overrun auth transfer_id v.reserved_provider_fee_minor
          v.actual_provider_fee_minor b'
      else b')

abbrev pub internal_move_lines : FinancialContext → (amount reserved actual : ℤ) → List Posting
internal_move_lines auth amount reserved_fee actual_fee =
    line auth reserved debit reserved_fee
    ∷ line auth custody credit (amount +ℤ actual_fee)
    ∷ line auth treasury_custody debit amount
    ∷ adjustment_lines auth (provider_fee_adjustment reserved_fee actual_fee)

unfoldable pub settle_internal_move_fee :
    FinancialContext → ℕ → (amount reserved actual : ℤ) → Books → Result Books
settle_internal_move_fee auth transfer_id amount reserved_fee actual_fee b = do
  b' ←
      post auth.environment internal_move_fee_settlement transfer_id
        (internal_move_lines auth amount reserved_fee actual_fee) (ensure_accounts auth b)
  ok (
      if ltb_ℤ (pos 0) (provider_fee_adjustment reserved_fee actual_fee).overrun
      then record_fee_overrun auth transfer_id reserved_fee actual_fee b'
      else b')

-- the two releases: from `reserved` back to `available`
abbrev pub release_lines : FinancialContext → ℤ → List Posting
release_lines auth amount = line auth reserved debit amount ∷ line auth available credit amount ∷ []

abbrev pub restore_lines : FinancialContext → ℤ → List Posting
restore_lines auth amount = line auth available debit amount ∷ line auth reserved credit amount ∷ []

unfoldable pub release_withdrawal_reservation : FinancialContext → ℕ → ℤ → Books → Result Books
release_withdrawal_reservation auth transfer_id total_minor b =
    post auth.environment withdrawal_release transfer_id (release_lines auth total_minor)
      (ensure_accounts auth b)

unfoldable pub release_internal_move_fee : FinancialContext → ℕ → ℤ → Books → Result Books
release_internal_move_fee auth transfer_id fee b =
    post auth.environment internal_move_fee_release transfer_id (release_lines auth fee)
      (ensure_accounts auth b)

-- A trusted late provider SMS contradicts a staff failure resolution: `available` may go negative.
unfoldable pub restore_released_withdrawal : FinancialContext → ℕ → ℤ → Books → Result Books
restore_released_withdrawal auth transfer_id total_minor b =
    post auth.environment withdrawal_late_rereservation transfer_id (restore_lines auth total_minor)
      (ensure_accounts auth b)

unfoldable pub restore_released_internal_move_fee : FinancialContext → ℕ → ℤ → Books → Result Books
restore_released_internal_move_fee auth transfer_id fee b =
    post auth.environment internal_move_fee_late_rereservation transfer_id (restore_lines auth fee)
      (ensure_accounts auth b)
