-- ===== src/Ledger/Effects.antt =====
-- apps/api/src/ledger/ledger.service.ts: the effect of `post` on the balance of an account.
use pay.Shared.{
  ℕ, ◌≡◌, refl, ◌∙◌, sym, ◌↔◌, ◌⊎◌, inl, inr, true, false, List, [], ◌∷◌, arith, if◌then◌else◌,
  Bool-cases, subst, ok_injective, ok, >>=-eq-ok,
}
use pay.Shared.Int.{ℤ, pos, ◌+ℤ◌, int_laws, eqb_ℤ_iff}
use pay.Domain.{Environment, FinancialContext, same_owner_iff}
use pay.Ledger.Accounts.{
  debit, credit, LedgerCode, code_index, AccountKey, same_account, LedgerAccount, Posting,
  SourceType, all_codes, LedgerJournal, LedgerEntry, Books, balance, ensure_account, ensure_codes,
  ensure_accounts, increment,
}
use pay.Ledger.Journal.{change, total, has_journal, post_entry, post_entries, post}

code_index_injective : (c d : LedgerCode) → code_index c ≡ code_index d → c ≡ d
code_index_injective c d h = ground arith

pub same_account_iff : (a b : AccountKey) → (same_account a b ≡ true) ↔ (a ≡ b)
unfolding same_account
same_account_iff a b =
    ground (arith, same_owner_iff a.owner b.owner, code_index_injective a.code b.code)

pub balance-ensure_account :
    (k : AccountKey) (auth : FinancialContext) (c : LedgerCode) (rows : List LedgerAccount)
    → balance k (ensure_account auth c rows) ≡ balance k rows
unfolding balance ensure_account
balance-ensure_account k auth c rows =
    ground (arith, same_account_iff k (record { owner = auth; code = c }))

balance-ensure_codes :
    (k : AccountKey) (auth : FinancialContext) (codes : List LedgerCode) (rows : List LedgerAccount)
    → balance k (ensure_codes auth codes rows) ≡ balance k rows
unfolding ensure_codes
balance-ensure_codes k auth [] rows = refl
balance-ensure_codes k auth (c ∷ codes) rows =
    balance-ensure_codes k auth codes (ensure_account auth c rows)
    ∙ balance-ensure_account k auth c rows

pub balance-ensure_accounts :
    (k : AccountKey) (auth : FinancialContext) (b : Books)
    → balance k (ensure_accounts auth b).accounts ≡ balance k b.accounts
unfolding ensure_accounts
balance-ensure_accounts k auth b = balance-ensure_codes k auth all_codes b.accounts

pub balance-increment :
    (j k : AccountKey) (d : ℤ) (rows rows' : List LedgerAccount)
    → increment k d rows ≡ ok rows'
    → balance j rows' ≡ (if same_account j k then balance j rows +ℤ d else balance j rows)
unfolding balance increment
balance-increment j k d [] rows' h = cc
balance-increment j k d (a ∷ rows) rows' h = elim (Bool-cases (same_account k a.key)) [
  | inl here ↦
      ground (arith, same_account_iff j k, same_account_iff j a.key, same_account_iff k a.key)
  | inr there ↦
      let (rest, e, f) =
        >>=-eq-ok (increment k d rows) (λ r. ok (a ∷ r)) (rw (there, increment) at h) in
      ground (
        arith,
        balance-increment j k d rows rest e,
        same_account_iff j k,
        same_account_iff j a.key,
        same_account_iff k a.key,
      )
]

-- The signed sum of the postings to one account.
unfoldable pub effect : AccountKey → List Posting → ℤ
effect k [] = pos 0
effect k (p ∷ ps) = if same_account k p.account then change p +ℤ effect k ps else effect k ps

balance-post_entry :
    (k : AccountKey) (j : LedgerJournal) (p : Posting) (b b' : Books)
    → post_entry j p b ≡ ok b'
    → balance k b'.accounts ≡ (
        if same_account k p.account then balance k b.accounts +ℤ change p else balance k b.accounts)
unfolding post_entry
balance-post_entry k j p b b' h =
    let (rows, e, f) = >>=-eq-ok (increment p.account (change p) b.accounts) _ h in
    ground (arith, balance-increment k p.account (change p) b.accounts rows e)

pub balance-post_entries :
    (k : AccountKey) (j : LedgerJournal) (ps : List Posting) (b b' : Books)
    → post_entries j ps b ≡ ok b'
    → balance k b'.accounts ≡ balance k b.accounts +ℤ effect k ps
unfolding post_entries effect
balance-post_entries k j [] b b' h = rw (← ok_injective h) (omega int_laws)
balance-post_entries k j (p ∷ ps) b b' h =
    let (b₁, e, f) = >>=-eq-ok (post_entry j p b) (post_entries j ps) h in
    grind (int_laws, balance-post_entry k j p b b₁ e, balance-post_entries k j ps b₁ b' f)

unfoldable pub entry_postings : List LedgerEntry → List Posting
entry_postings [] = []
entry_postings (e ∷ es) = e.posting ∷ entry_postings es

-- Every balance is the signed sum of the entries on its account.
unfoldable pub Reconciles : Books → Type 0
unfolding entry_postings effect
Reconciles b = (k : AccountKey) → balance k b.accounts ≡ effect k (entry_postings b.entries)

entries-post_entry :
    (j : LedgerJournal) (p : Posting) (b b' : Books)
    → post_entry j p b ≡ ok b'
    → entry_postings b'.entries ≡ p ∷ entry_postings b.entries
unfolding post_entry entry_postings
entries-post_entry j p b b' h =
    let (rows, e, same) = >>=-eq-ok (increment p.account (change p) b.accounts) _ h in
    rw (← ok_injective same)

post_entry-Reconciles :
    (j : LedgerJournal) (p : Posting) (b b' : Books)
    → post_entry j p b ≡ ok b'
    → Reconciles b
    → Reconciles b'
unfolding Reconciles effect
post_entry-Reconciles j p b b' h r k =
    rw (entries-post_entry j p b b' h) (grind (int_laws, balance-post_entry k j p b b' h, r k))

post_entries-Reconciles :
    (j : LedgerJournal) (ps : List Posting) (b b' : Books)
    → post_entries j ps b ≡ ok b'
    → Reconciles b
    → Reconciles b'
unfolding post_entries
post_entries-Reconciles j [] b b' h r = subst Reconciles (ok_injective h) r
post_entries-Reconciles j (p ∷ ps) b b' h r =
    let (b₁, e, f) = >>=-eq-ok (post_entry j p b) (post_entries j ps) h in
    post_entries-Reconciles j ps b₁ b' f (post_entry-Reconciles j p b b₁ e r)

-- A successful post either found its journal, and changed nothing, or wrote every posting.
pub post-cases :
    (env : Environment) (st : SourceType) (id : ℕ) (ps : List Posting) (b b' : Books)
    → post env st id ps b ≡ ok b'
    → ((has_journal st id b.journals ≡ true) × (b' ≡ b))
      ⊎ ((has_journal st id b.journals ≡ false)
          × (total debit ps ≡ total credit ps)
          × (let j : LedgerJournal = record {
            environment = env;
            source_type = st;
            source_id = id;
          } in
              post_entries j ps (record b { journals = j ∷ b.journals }) ≡ ok b'))
unfolding post
post-cases env st id ps b b' h = ground (arith, eqb_ℤ_iff (total debit ps) (total credit ps))

pub post-Reconciles :
    (env : Environment) (st : SourceType) (id : ℕ) (ps : List Posting) (b b' : Books)
    → post env st id ps b ≡ ok b'
    → Reconciles b
    → Reconciles b'
unfolding Reconciles
post-Reconciles env st id ps b b' h r = elim (post-cases env st id ps b b' h) [
  | inl (_, same) ↦ subst Reconciles (sym same) r
  | inr (_, _, written) ↦ post_entries-Reconciles _ ps _ b' written r
]

-- A successful post moves each balance by the postings' effect, or it found its journal.
pub balance-post :
    (env : Environment) (st : SourceType) (id : ℕ) (ps : List Posting) (b b' : Books)
    → post env st id ps b ≡ ok b'
    → has_journal st id b.journals ≡ false
    → (k : AccountKey) → balance k b'.accounts ≡ balance k b.accounts +ℤ effect k ps
balance-post env st id ps b b' h new k = elim (post-cases env st id ps b b' h) [
  | inl (old, _) ↦ cc
  | inr (_, _, written) ↦ balance-post_entries k _ ps _ b' written
]
