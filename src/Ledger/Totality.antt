-- ===== src/Ledger/Totality.antt =====
-- apps/api/src/ledger/ledger.service.ts: when a post succeeds.
use pay.Shared.{
  ℕ, ◌≡◌, refl, ◌⊎◌, inl, inr, true, false, List, [], ◌∷◌, arith, is_some, any, Bool-cases, ok,
  >>=-eq-ok, All,
}
use pay.Shared.Int.{ℤ, pos, ◌+ℤ◌, ltb_ℤ, eqb_ℤ, eqb_ℤ_iff}
use pay.Domain.{Environment, FinancialContext}
use pay.Ledger.Accounts.{
  LedgerCode, all_codes, debit, credit, AccountKey, same_account, LedgerAccount, Posting,
  SourceType, LedgerJournal, Books, find_account, ensure_account, ensure_codes, ensure_accounts,
  increment,
}
use pay.Ledger.Journal.{change, total, has_journal, post_entry, post_entries, post}
use pay.Ledger.Effects.{same_account_iff}
use pay.Ledger.TrialBalance.{at}

-- The account has a row.
abbrev pub IsOpen : AccountKey → List LedgerAccount → Type 0
IsOpen k rows = is_some (find_account k rows) ≡ true

IsOpen-ensure_self :
    (auth : FinancialContext) (c : LedgerCode) (rows : List LedgerAccount)
    → IsOpen (at auth c) (ensure_account auth c rows)
unfolding ensure_account
IsOpen-ensure_self auth c rows = ground (arith, same_account_iff (at auth c) (at auth c))

IsOpen-ensure_account :
    (k : AccountKey) (auth : FinancialContext) (c : LedgerCode) (rows : List LedgerAccount)
    → IsOpen k rows
    → IsOpen k (ensure_account auth c rows)
unfolding ensure_account
IsOpen-ensure_account k auth c rows h = ground arith

pub IsOpen-increment :
    (j k : AccountKey) (d : ℤ) (rows rows' : List LedgerAccount)
    → increment k d rows ≡ ok rows'
    → IsOpen j rows
    → IsOpen j rows'
unfolding increment find_account
IsOpen-increment j k d [] rows' h o = cc
IsOpen-increment j k d (a ∷ rows) rows' h o = elim (Bool-cases (same_account k a.key)) [
  | inl here ↦ ground arith
  | inr there ↦
      let (rest, e, f) =
        >>=-eq-ok (increment k d rows) (λ r. ok (a ∷ r)) (rw (there, increment) at h) in
      ground (arith, IsOpen-increment j k d rows rest e)
]

increment-total :
    (k : AccountKey) (d : ℤ) (rows : List LedgerAccount)
    → IsOpen k rows
    → (rows' : List LedgerAccount) × (increment k d rows ≡ ok rows')
unfolding increment find_account
increment-total k d [] o = cc
increment-total k d (a ∷ rows) o = elim (Bool-cases (same_account k a.key)) [
  | inl here ↦ (record a { balance_minor = a.balance_minor +ℤ d } ∷ rows, rw here)
  | inr there ↦ let (rest, e) = increment-total k d rows (ground arith) in (a ∷ rest, rw (there, e))
]

-- Every posting's account has a row.
abbrev pub AreOpen : List Posting → List LedgerAccount → Type 0
AreOpen ps rows = All (λ p. IsOpen p.account rows) ps

AreOpen-increment :
    (k : AccountKey) (d : ℤ) (rows rows' : List LedgerAccount) (ps : List Posting)
    → increment k d rows ≡ ok rows'
    → AreOpen ps rows
    → AreOpen ps rows'
AreOpen-increment k d rows rows' [] h o = tt
AreOpen-increment k d rows rows' (p ∷ ps) h (o, os) =
    (IsOpen-increment p.account k d rows rows' h o, AreOpen-increment k d rows rows' ps h os)

post_entries-total :
    (j : LedgerJournal) (ps : List Posting) (b : Books)
    → AreOpen ps b.accounts
    → (b' : Books) × (post_entries j ps b ≡ ok b')
unfolding post_entries post_entry
post_entries-total j [] b h = (b, refl)
post_entries-total j (p ∷ ps) b (o, os) =
    let (rows, e) = increment-total p.account (change p) b.accounts o in
    let b₁ : Books = record b {
      accounts = rows;
      entries = record { journal = j; posting = p } ∷ b.entries;
    } in
    let (b', f) =
      post_entries-total j ps b₁ (AreOpen-increment p.account (change p) b.accounts rows ps e os) in
    (b', rw e f)

-- A post with no negative amount, with equal totals and with known accounts succeeds.
pub post-total :
    (env : Environment) (st : SourceType) (id : ℕ) (ps : List Posting) (b : Books)
    → any (λ p. ltb_ℤ p.amount_minor (pos 0)) ps ≡ false
    → total debit ps ≡ total credit ps
    → AreOpen ps b.accounts
    → (b' : Books) × (post env st id ps b ≡ ok b')
unfolding post
post-total env st id ps b signs totals opens =
    let agree : eqb_ℤ (total debit ps) (total credit ps) ≡ true = (eqb_ℤ_iff _ _).1 totals in
    elim (Bool-cases (has_journal st id b.journals)) [
      | inl old ↦ (b, rw (signs, agree, old))
      | inr new ↦
          let j : LedgerJournal = record { environment = env; source_type = st; source_id = id } in
          let (b', e) = post_entries-total j ps (record b { journals = j ∷ b.journals }) opens in
          (b', rw (signs, agree, new) e)
    ]

-- An owner has a row for each code.
abbrev pub HasAccounts : FinancialContext → List LedgerAccount → Type 0
HasAccounts o rows = (c : LedgerCode) → IsOpen (at o c) rows

IsOpen-ensure_codes :
    (k : AccountKey) (auth : FinancialContext) (codes : List LedgerCode) (rows : List LedgerAccount)
    → IsOpen k rows
    → IsOpen k (ensure_codes auth codes rows)
unfolding ensure_codes
IsOpen-ensure_codes k auth [] rows o = o
IsOpen-ensure_codes k auth (c ∷ codes) rows o =
    IsOpen-ensure_codes k auth codes (ensure_account auth c rows)
      (IsOpen-ensure_account k auth c rows o)

abbrev Among : LedgerCode → List LedgerCode → Type 0
Among c [] = ⊥
Among c (d ∷ ds) = (c ≡ d) ⊎ Among c ds

IsOpen-ensure_codes_self :
    (auth : FinancialContext) (c : LedgerCode) (codes : List LedgerCode) (rows : List LedgerAccount)
    → Among c codes
    → IsOpen (at auth c) (ensure_codes auth codes rows)
unfolding ensure_codes
IsOpen-ensure_codes_self auth c [] rows h = absurd h
IsOpen-ensure_codes_self auth c (d ∷ codes) rows (inl e) = rw e (
    IsOpen-ensure_codes (at auth d) auth codes (ensure_account auth d rows)
      (IsOpen-ensure_self auth d rows))
IsOpen-ensure_codes_self auth c (d ∷ codes) rows (inr h) =
    IsOpen-ensure_codes_self auth c codes (ensure_account auth d rows) h

all_codes_complete : (c : LedgerCode) → Among c all_codes
all_codes_complete c = ground arith

pub ensure_accounts-HasAccounts :
    (auth : FinancialContext) (b : Books) → HasAccounts auth (ensure_accounts auth b).accounts
unfolding ensure_accounts
ensure_accounts-HasAccounts auth b c =
    IsOpen-ensure_codes_self auth c all_codes b.accounts (all_codes_complete c)

pub ensure_accounts-keeps :
    (k : AccountKey) (auth : FinancialContext) (b : Books)
    → IsOpen k b.accounts
    → IsOpen k (ensure_accounts auth b).accounts
unfolding ensure_accounts
ensure_accounts-keeps k auth b = IsOpen-ensure_codes k auth all_codes b.accounts

ensure_account_noop :
    (auth : FinancialContext) (c : LedgerCode) (rows : List LedgerAccount)
    → IsOpen (at auth c) rows
    → ensure_account auth c rows ≡ rows
unfolding ensure_account
ensure_account_noop auth c rows o = ground arith

ensure_codes_noop :
    (auth : FinancialContext) (codes : List LedgerCode) (rows : List LedgerAccount)
    → HasAccounts auth rows
    → ensure_codes auth codes rows ≡ rows
unfolding ensure_codes
ensure_codes_noop auth [] rows h = refl
ensure_codes_noop auth (c ∷ codes) rows h =
    rw (ensure_account_noop auth c rows (h c)) (ensure_codes_noop auth codes rows h)

pub ensure_accounts_noop :
    (auth : FinancialContext) (b : Books) → HasAccounts auth b.accounts → ensure_accounts auth b ≡ b
unfolding ensure_accounts
ensure_accounts_noop auth b h = rw (ensure_codes_noop auth all_codes b.accounts h)
