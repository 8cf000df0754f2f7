-- ===== src/Ledger/Accounts.antt =====
-- apps/api/src/ledger/ledger.service.ts: the chart of accounts, its rows and their balances.
use pay.Shared.{
  ℕ, Bool, ◌&&◌, Option, none, some, List, [], ◌∷◌, ◌==◌, if◌then◌else◌, Result, ok, err, ◌>>=◌,
  record_not_found,
}
use pay.Shared.Int.{ℤ, pos, ◌+ℤ◌}
use pay.Domain.{Environment, FinancialContext, same_owner, ReconciliationCase}

-- `LEDGER_CODES`
pub data LedgerCode : Type 0 where
  available reserved custody treasury_custody provider_fees platform_fees suspense : LedgerCode

pub data LedgerAccountType : Type 0 where
  asset liability revenue expense : LedgerAccountType

-- the `type` of each entry of `definitions`
abbrev pub account_type : LedgerCode → LedgerAccountType
account_type available = liability
account_type reserved = liability
account_type custody = asset
account_type treasury_custody = asset
account_type provider_fees = expense
account_type platform_fees = revenue
account_type suspense = liability

abbrev pub all_codes : List LedgerCode
all_codes =
    available ∷ reserved ∷ custody ∷ treasury_custody ∷ provider_fees ∷ platform_fees ∷ suspense
    ∷ []

abbrev pub code_index : LedgerCode → ℕ
code_index available = 0
code_index reserved = 1
code_index custody = 2
code_index treasury_custody = 3
code_index provider_fees = 4
code_index platform_fees = 5
code_index suspense = 6

-- the unique key `merchantId_environment_code`
pub record AccountKey : Type 0 where
  pub owner : FinancialContext
  pub code : LedgerCode

unfoldable pub same_account : AccountKey → AccountKey → Bool
same_account a b = (code_index a.code == code_index b.code) && same_owner a.owner b.owner

pub record LedgerAccount : Type 0 where
  pub key : AccountKey
  pub balance_minor : ℤ

pub data Direction : Type 0 where
  debit credit : Direction

pub record Posting : Type 0 where
  pub account : AccountKey
  pub direction : Direction
  pub amount_minor : ℤ

pub data SourceType : Type 0 where
  deposit receipt_suspense suspense_resolution : SourceType
  withdrawal_reservation internal_move_fee_reservation : SourceType
  withdrawal_settlement internal_move_fee_settlement : SourceType
  withdrawal_release internal_move_fee_release : SourceType
  withdrawal_late_rereservation internal_move_fee_late_rereservation : SourceType

abbrev pub source_index : SourceType → ℕ
source_index deposit = 0
source_index receipt_suspense = 1
source_index suspense_resolution = 2
source_index withdrawal_reservation = 3
source_index internal_move_fee_reservation = 4
source_index withdrawal_settlement = 5
source_index internal_move_fee_settlement = 6
source_index withdrawal_release = 7
source_index internal_move_fee_release = 8
source_index withdrawal_late_rereservation = 9
source_index internal_move_fee_late_rereservation = 10

pub record LedgerJournal : Type 0 where
  pub environment : Environment
  pub source_type : SourceType
  pub source_id : ℕ

pub record LedgerEntry : Type 0 where
  pub journal : LedgerJournal
  pub posting : Posting

-- The tables that the ledger writes.
pub record Books : Type 0 where
  pub accounts : List LedgerAccount
  pub journals : List LedgerJournal
  pub entries : List LedgerEntry
  pub cases : List ReconciliationCase

unfoldable pub find_account : AccountKey → List LedgerAccount → Option LedgerAccount
find_account k [] = none
find_account k (a ∷ rest) = if same_account k a.key then some a else find_account k rest

abbrev balance_or_zero : Option LedgerAccount → ℤ
balance_or_zero none = pos 0
balance_or_zero (some a) = a.balance_minor

-- `account?.balanceMinor ?? 0n`
unfoldable pub balance : AccountKey → List LedgerAccount → ℤ
unfolding find_account
balance k accounts = balance_or_zero (find_account k accounts)

-- `upsert` with an empty update
unfoldable pub ensure_account :
    FinancialContext → LedgerCode → List LedgerAccount → List LedgerAccount
unfolding find_account
ensure_account auth code accounts =
    elim (find_account (record { owner = auth; code = code }) accounts) [
      | none ↦
          record { key = record { owner = auth; code = code }; balance_minor = pos 0 } ∷ accounts
      | some _ ↦ accounts
    ]

unfoldable pub ensure_codes :
    FinancialContext → List LedgerCode → List LedgerAccount → List LedgerAccount
ensure_codes auth [] accounts = accounts
ensure_codes auth (code ∷ codes) accounts =
    ensure_codes auth codes (ensure_account auth code accounts)

unfoldable pub ensure_accounts : FinancialContext → Books → Books
unfolding ensure_codes ensure_account
ensure_accounts auth b = record b { accounts = ensure_codes auth all_codes b.accounts }

unfoldable pub available_minor : FinancialContext → Books → ℤ
unfolding balance
available_minor auth b = balance (record { owner = auth; code = available }) b.accounts

-- `update` of one account by an increment; Prisma throws where the row is missing
unfoldable pub increment : AccountKey → ℤ → List LedgerAccount → Result (List LedgerAccount)
increment k delta [] = err record_not_found
increment k delta (a ∷ rest) =
    if same_account k a.key
    then ok (record a { balance_minor = a.balance_minor +ℤ delta } ∷ rest)
    else (increment k delta rest >>= λ rest'. ok (a ∷ rest'))
