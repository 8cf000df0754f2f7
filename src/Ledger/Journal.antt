-- ===== src/Ledger/Journal.antt =====
-- apps/api/src/ledger/ledger.service.ts: `post`, which checks a journal and writes it once.
use pay.Shared.{
  ℕ, Bool, true, false, not, ◌&&◌, ◌||◌, List, [], ◌∷◌, ◌==◌, if◌then◌else◌, any, Result, ok, err,
  ◌>>=◌, negative_posting, unbalanced_journal,
}
use pay.Shared.Int.{ℤ, pos, ◌+ℤ◌, ◌-ℤ◌, ltb_ℤ, eqb_ℤ}
use pay.Domain.{Environment}
use pay.Ledger.Accounts.{
  LedgerCode, asset, liability, revenue, expense, account_type, Direction, debit, credit, Posting,
  SourceType, source_index, LedgerJournal, Books, increment,
}

abbrev pub natural_debit : LedgerCode → Bool
natural_debit code = elim (account_type code) [
  | asset ↦ true
  | expense ↦ true
  | liability ↦ false
  | revenue ↦ false
]

abbrev pub is_debit : Direction → Bool
is_debit debit = true
is_debit credit = false

-- the signed increment of the posting's account
unfoldable pub change : Posting → ℤ
change p =
    if (natural_debit p.account.code && is_debit p.direction)
      || (not (natural_debit p.account.code) && not (is_debit p.direction))
    then p.amount_minor
    else pos 0 -ℤ p.amount_minor

abbrev pub same_direction : Direction → Direction → Bool
same_direction debit d = is_debit d
same_direction credit d = not (is_debit d)

-- `filter` by direction, and the sum of the amounts
unfoldable pub total : Direction → List Posting → ℤ
total d [] = pos 0
total d (p ∷ ps) = if same_direction d p.direction then p.amount_minor +ℤ total d ps else total d ps

unfoldable pub has_journal : SourceType → ℕ → List LedgerJournal → Bool
has_journal st id [] = false
has_journal st id (j ∷ js) =
    ((source_index st == source_index j.source_type) && (id == j.source_id)) || has_journal st id js

unfoldable pub post_entry : LedgerJournal → Posting → Books → Result Books
unfolding increment change
post_entry j p b = do
  accounts' ← increment p.account (change p) b.accounts
  ok (record b { accounts = accounts'; entries = record { journal = j; posting = p } ∷ b.entries })

unfoldable pub post_entries : LedgerJournal → List Posting → Books → Result Books
post_entries j [] b = ok b
post_entries j (p ∷ ps) b = post_entry j p b >>= post_entries j ps

unfoldable pub post : Environment → SourceType → ℕ → List Posting → Books → Result Books
unfolding total has_journal
post env st id postings b =
    let j : LedgerJournal = record { environment = env; source_type = st; source_id = id } in
    if any (λ p. ltb_ℤ p.amount_minor (pos 0)) postings
    then err negative_posting
    else if not (eqb_ℤ (total debit postings) (total credit postings))
    then err unbalanced_journal
    else if has_journal st id b.journals
    then ok b
    else post_entries j postings (record b { journals = j ∷ b.journals })
