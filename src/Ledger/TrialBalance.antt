-- ===== src/Ledger/TrialBalance.antt =====
-- apps/api/src/ledger/ledger.service.ts: the trial balance of one owner, over `post`.
use pay.Shared.{ℕ, ◌≡◌, refl, inl, inr, ◌&&◌, Bool, List, [], ◌∷◌, if◌then◌else◌, Bool-cases, ok}
use pay.Shared.Int.{ℤ, pos, ◌+ℤ◌, int_laws, parts}
use pay.Domain.{Environment, FinancialContext, same_owner}
use pay.Ledger.Accounts.{
  LedgerCode, available, reserved, custody, treasury_custody, provider_fees, platform_fees,
  suspense, Direction, debit, credit, AccountKey, same_account, Posting, SourceType, Books, balance,
}
use pay.Ledger.Journal.{same_direction, change, total, post}
use pay.Ledger.Operations.{line}
use pay.Ledger.Effects.{effect, post-cases, balance-post_entries}

abbrev pub at : FinancialContext → LedgerCode → AccountKey
at o c = record { owner = o; code = c }

-- Assets and expenses of an owner.
unfoldable pub holdings : FinancialContext → Books → ℤ
holdings o b =
    balance (at o custody) b.accounts
    +ℤ balance (at o treasury_custody) b.accounts
    +ℤ balance (at o provider_fees) b.accounts

-- Liabilities and revenue of an owner.
unfoldable pub claims : FinancialContext → Books → ℤ
claims o b =
    balance (at o available) b.accounts
    +ℤ balance (at o reserved) b.accounts
    +ℤ balance (at o platform_fees) b.accounts
    +ℤ balance (at o suspense) b.accounts

-- Assets and expenses equal liabilities and revenue, for each merchant and environment.
unfoldable pub IsBalanced : Books → Type 0
unfolding holdings claims
IsBalanced b = (o : FinancialContext) → holdings o b ≡ claims o b

-- The sum of an owner's postings in one direction.
unfoldable pub owned : Direction → FinancialContext → List Posting → ℤ
owned d o [] = pos 0
owned d o (p ∷ ps) =
    if same_direction d p.direction && same_owner o p.account.owner
    then p.amount_minor +ℤ owned d o ps
    else owned d o ps

contribution : AccountKey → Posting → ℤ
contribution k p = if same_account k p.account then change p else pos 0

effect-cons :
    (k : AccountKey) (p : Posting) (ps : List Posting)
    → effect k (p ∷ ps) ≡ contribution k p +ℤ effect k ps
unfolding effect contribution
effect-cons k p ps = grind int_laws

abbrev amount_if : Bool → ℤ → ℤ
amount_if b x = if b then x else pos 0

-- One posting moves one side by its amount, with the sign of its direction.
abbrev MovesOneSide : FinancialContext → Posting → Type 0
MovesOneSide o p =
    contribution (at o custody) p
      +ℤ contribution (at o treasury_custody) p
      +ℤ contribution (at o provider_fees) p
      +ℤ amount_if (same_direction credit p.direction && same_owner o p.account.owner)
          p.amount_minor
    ≡ contribution (at o available) p
      +ℤ contribution (at o reserved) p
      +ℤ contribution (at o platform_fees) p
      +ℤ contribution (at o suspense) p
      +ℤ amount_if (same_direction debit p.direction && same_owner o p.account.owner) p.amount_minor

debit-MovesOneSide :
    (o a : FinancialContext) (c : LedgerCode) (x : ℤ) → MovesOneSide o (line a c debit x)
unfolding contribution same_account change
debit-MovesOneSide o a available x = elim (Bool-cases (same_owner o a)) [
  | inl own ↦ rw own (omega int_laws)
  | inr other ↦ rw other (omega int_laws)
]
debit-MovesOneSide o a c x = elim (Bool-cases (same_owner o a)) [
  | inl own ↦ rw own (omega int_laws)
  | inr other ↦ rw other (omega int_laws)
]

credit-MovesOneSide :
    (o a : FinancialContext) (c : LedgerCode) (x : ℤ) → MovesOneSide o (line a c credit x)
unfolding contribution same_account change
credit-MovesOneSide o a available x = elim (Bool-cases (same_owner o a)) [
  | inl own ↦ rw own (omega int_laws)
  | inr other ↦ rw other (omega int_laws)
]
credit-MovesOneSide o a c x = elim (Bool-cases (same_owner o a)) [
  | inl own ↦ rw own (omega int_laws)
  | inr other ↦ rw other (omega int_laws)
]

line-MovesOneSide :
    (o a : FinancialContext) (c : LedgerCode) (d : Direction) (x : ℤ)
    → MovesOneSide o (line a c d x)
line-MovesOneSide o a c debit x = debit-MovesOneSide o a c x
line-MovesOneSide o a c credit x = credit-MovesOneSide o a c x

owned-cons :
    (d : Direction) (o : FinancialContext) (p : Posting) (ps : List Posting)
    → owned d o (p ∷ ps)
      ≡ amount_if (same_direction d p.direction && same_owner o p.account.owner) p.amount_minor
        +ℤ owned d o ps
unfolding owned
owned-cons d o p ps =
    elim (Bool-cases (same_direction d p.direction && same_owner o p.account.owner)) [
      | inl own ↦ rw own refl
      | inr other ↦ rw other (omega int_laws)
    ]

-- What an owner's debits exceed its credits by, its holdings exceed its claims by.
effects-owned :
    (o : FinancialContext) (ps : List Posting)
    → effect (at o custody) ps
        +ℤ effect (at o treasury_custody) ps
        +ℤ effect (at o provider_fees) ps
        +ℤ owned credit o ps
      ≡ effect (at o available) ps
        +ℤ effect (at o reserved) ps
        +ℤ effect (at o platform_fees) ps
        +ℤ effect (at o suspense) ps
        +ℤ owned debit o ps
effects-owned o [] = unfold effect owned in omega int_laws
effects-owned o (p ∷ ps) =
    let one = line-MovesOneSide o p.account.owner p.account.code p.direction p.amount_minor in
    simp (effect-cons, owned-cons) (omega (int_laws, parts one, parts (effects-owned o ps)))

pub post-IsBalanced :
    (env : Environment) (st : SourceType) (id : ℕ) (ps : List Posting) (b b' : Books)
    → post env st id ps b ≡ ok b'
    → (total debit ps ≡ total credit ps
        → (o : FinancialContext) → owned debit o ps ≡ owned credit o ps)
    → IsBalanced b
    → IsBalanced b'
unfolding IsBalanced
post-IsBalanced env st id ps b b' h agree valid o = elim (post-cases env st id ps b b' h) [
  | inl (_, same) ↦ rw same (valid o)
  | inr (_, totals, written) ↦
      let moved = λ (c : LedgerCode). balance-post_entries (at o c) _ ps _ b' written in
      omega (
        int_laws,
        parts (valid o),
        parts (agree totals o),
        parts (effects-owned o ps),
        parts (moved custody),
        parts (moved treasury_custody),
        parts (moved provider_fees),
        parts (moved available),
        parts (moved reserved),
        parts (moved platform_fees),
        parts (moved suspense),
      )
]
