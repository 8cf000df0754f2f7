-- ===== src/Ledger/Commands.antt =====
-- apps/api/src/ledger/ledger.service.ts: the operations as one type, and histories of them
-- from empty books.
use pay.Shared.{
  ℕ, ◌≡◌, refl, Bool, true, false, List, [], ◌∷◌, arith, if◌then◌else◌, Result, ok, err, ◌∙◌,
  ok_injective, All, subst,
}
use pay.Shared.Int.{ℤ, pos, ◌+ℤ◌}
use pay.Domain.{Environment, FinancialContext, same_owner}
use pay.Ledger.Accounts.{
  suspense, available, custody, deposit, receipt_suspense, suspense_resolution,
  withdrawal_reservation, internal_move_fee_reservation, withdrawal_settlement,
  internal_move_fee_settlement, withdrawal_release, internal_move_fee_release,
  withdrawal_late_rereservation, internal_move_fee_late_rereservation, Direction, debit, credit,
  Posting, SourceType, Books, ensure_accounts, AccountKey, balance,
}
use pay.Ledger.Journal.{total, post}
use pay.Ledger.Operations.{
  suspense_lines, settlement_adjustment, line, adjustment_lines, FeeAdjustment, SettlementValues,
  settlement_lines, internal_move_lines, release_lines, restore_lines, credit_deposit,
  move_receipt_to_suspense, release_suspense_to_merchant, reserve_withdrawal,
  reserve_internal_move_fee, settle_withdrawal, settle_internal_move_fee, record_fee_overrun,
  release_withdrawal_reservation, release_internal_move_fee, restore_released_withdrawal,
  restore_released_internal_move_fee, provider_fee_adjustment,
}
use pay.Ledger.Posted.{
  release_suspense-posted, reserve_withdrawal-posted, reserve_fee-posted, settle_withdrawal-posted,
  settle_fee-posted,
}
use pay.Ledger.Effects.{
  effect, entry_postings, Reconciles, post-Reconciles, balance-ensure_accounts,
}
use pay.Ledger.TrialBalance.{holdings, claims, IsBalanced, owned, post-IsBalanced}

pub data Command : Type 0 where
  credit_deposit_of : FinancialContext → ℕ → ℤ → Command
  suspend : FinancialContext → ℕ → ℤ → Command
  release_suspense : (source target : FinancialContext) → ℕ → ℤ → Command
  reserve reserve_fee : FinancialContext → ℕ → ℤ → Command
  settle : FinancialContext → ℕ → SettlementValues → Command
  settle_fee : FinancialContext → ℕ → (amount reserved actual : ℤ) → Command
  release release_fee restore restore_fee : FinancialContext → ℕ → ℤ → Command

unfoldable pub run : Command → Books → Result Books
run (credit_deposit_of auth id x) = credit_deposit auth id x
run (suspend auth id x) = move_receipt_to_suspense auth id x
run (release_suspense source target id x) = release_suspense_to_merchant source target id x
run (reserve auth id x) = reserve_withdrawal auth id x
run (reserve_fee auth id x) = reserve_internal_move_fee auth id x
run (settle auth id v) = settle_withdrawal auth id v
run (settle_fee auth id x r a) = settle_internal_move_fee auth id x r a
run (release auth id x) = release_withdrawal_reservation auth id x
run (release_fee auth id x) = release_internal_move_fee auth id x
run (restore auth id x) = restore_released_withdrawal auth id x
run (restore_fee auth id x) = restore_released_internal_move_fee auth id x

-- A property of books that the creation of accounts and of cases leaves alone, and that a journal
-- keeps whose debits and credits agree owner by owner.
pub record IsKept (P : Books → Type 0) : Type 0 where
  pub ensured : (auth : FinancialContext) (b : Books) → P b → P (ensure_accounts auth b)
  pub overrun :
      (auth : FinancialContext) (id : ℕ) (r a : ℤ) (b : Books)
      → P b
      → P (record_fee_overrun auth id r a b)
  pub posted :
      (env : Environment) (st : SourceType) (id : ℕ) (ps : List Posting) (b b' : Books)
      → post env st id ps b ≡ ok b'
      → (total debit ps ≡ total credit ps
          → (o : FinancialContext) → owned debit o ps ≡ owned credit o ps)
      → P b
      → P b'

IsOwnedBy : FinancialContext → Posting → Type 0
IsOwnedBy a p = p.account.owner ≡ a

owned-total :
    (d : Direction) (o a : FinancialContext) (ps : List Posting)
    → All (IsOwnedBy a) ps
    → owned d o ps ≡ (if same_owner o a then total d ps else pos 0)
unfolding owned total IsOwnedBy
owned-total d o a [] h = ground arith
owned-total d o a (p ∷ ps) (e, h) = rw (e, owned-total d o a ps h) (ground arith)

single_owner :
    (a : FinancialContext) (ps : List Posting)
    → All (IsOwnedBy a) ps
    → total debit ps ≡ total credit ps
    → (o : FinancialContext) → owned debit o ps ≡ owned credit o ps
single_owner a ps h e o = rw (owned-total debit o a ps h, owned-total credit o a ps h, e)

adjustment-IsOwnedBy :
    (auth : FinancialContext) (a : FeeAdjustment) → All (IsOwnedBy auth) (adjustment_lines auth a)
unfolding IsOwnedBy
adjustment-IsOwnedBy auth a = ground arith

suspense_agrees :
    (source target : FinancialContext) (x : ℤ) (o : FinancialContext)
    → owned debit o (suspense_lines source target x)
      ≡ owned credit o (suspense_lines source target x)
unfolding owned
suspense_agrees source target x o = ground arith

module _ (P : Books → Type 0) (k : IsKept P) where
  post_own :
      (auth : FinancialContext) (st : SourceType) (id : ℕ) (ps : List Posting) (b b' : Books)
      → post auth.environment st id ps (ensure_accounts auth b) ≡ ok b'
      → All (IsOwnedBy auth) ps
      → P b
      → P b'
  post_own auth st id ps b b' h own p =
      k.posted auth.environment st id ps (ensure_accounts auth b) b' h (single_owner auth ps own)
        (k.ensured auth b p)

  overrun_if :
      (over : Bool) (auth : FinancialContext) (id : ℕ) (r a : ℤ) (b b' : Books)
      → ok (if over then record_fee_overrun auth id r a b else b) ≡ ok b'
      → P b
      → P b'
  overrun_if true auth id r a b b' h p = subst P (ok_injective h) (k.overrun auth id r a b p)
  overrun_if false auth id r a b b' h p = subst P (ok_injective h) p

  -- Every operation keeps such a property.
  run-IsKept : (c : Command) (b b' : Books) → run c b ≡ ok b' → P b → P b'
  unfolding run credit_deposit move_receipt_to_suspense release_withdrawal_reservation
      release_internal_move_fee restore_released_withdrawal restore_released_internal_move_fee
      IsOwnedBy
  run-IsKept (credit_deposit_of auth id x) b b' h =
      post_own auth deposit id (line auth custody debit x ∷ line auth available credit x ∷ []) b b'
        h (refl, (refl, tt))
  run-IsKept (suspend auth id x) b b' h =
      post_own auth receipt_suspense id
        (line auth custody debit x ∷ line auth suspense credit x ∷ []) b b' h (refl, (refl, tt))
  run-IsKept (release_suspense source target id x) b b' h =
      let (_, posted) = release_suspense-posted source target id x b b' h in
      λ p.
        k.posted target.environment suspense_resolution id (suspense_lines source target x) _ b'
          posted (λ _. suspense_agrees source target x) (k.ensured target _ (k.ensured source b p))
  run-IsKept (reserve auth id x) b b' h =
      post_own auth withdrawal_reservation id (restore_lines auth x) b b'
        (reserve_withdrawal-posted auth id x b b' h).1 (refl, (refl, tt))
  run-IsKept (reserve_fee auth id x) b b' h =
      post_own auth internal_move_fee_reservation id (restore_lines auth x) b b'
        (reserve_fee-posted auth id x b b' h).1 (refl, (refl, tt))
  run-IsKept (settle auth id v) b b' h =
      let (b₁, posted, same) = settle_withdrawal-posted auth id v b b' h in
      λ p. overrun_if _ auth id _ _ b₁ b' same (
        post_own auth withdrawal_settlement id (settlement_lines auth v) b b₁ posted
          (refl, (refl, (refl, (refl, adjustment-IsOwnedBy auth (settlement_adjustment v))))) p)
  run-IsKept (settle_fee auth id x r a) b b' h =
      let (b₁, posted, same) = settle_fee-posted auth id x r a b b' h in
      λ p. overrun_if _ auth id _ _ b₁ b' same (
        post_own auth internal_move_fee_settlement id (internal_move_lines auth x r a) b b₁ posted
          (refl, (refl, (refl, adjustment-IsOwnedBy auth (provider_fee_adjustment r a)))) p)
  run-IsKept (release auth id x) b b' h =
      post_own auth withdrawal_release id (release_lines auth x) b b' h (refl, (refl, tt))
  run-IsKept (release_fee auth id x) b b' h =
      post_own auth internal_move_fee_release id (release_lines auth x) b b' h (refl, (refl, tt))
  run-IsKept (restore auth id x) b b' h =
      post_own auth withdrawal_late_rereservation id (restore_lines auth x) b b' h
        (refl, (refl, tt))
  run-IsKept (restore_fee auth id x) b b' h =
      post_own auth internal_move_fee_late_rereservation id (restore_lines auth x) b b' h
        (refl, (refl, tt))

-- A history: commands in order, where a refused one is rolled back.
unfoldable pub run_all : List Command → Books → Books
run_all [] b = b
run_all (c ∷ cs) b = run_all cs (elim (run c b) [ ok b' ↦ b' | err _ ↦ b ])

abbrev pub empty_books : Books
empty_books = record { accounts = []; journals = []; entries = []; cases = [] }

module _ (P : Books → Type 0) (k : IsKept P) where
  step-IsKept : (c : Command) (b : Books) → P b → P (elim (run c b) [ ok b' ↦ b' | err _ ↦ b ])
  step-IsKept c b p = go (run c b) refl
    where
      go : (r : Result Books) → run c b ≡ r → P (elim r [ ok b' ↦ b' | err _ ↦ b ])
      go (ok b') e = run-IsKept P k c b b' e p
      go (err _) e = p

  pub run_all-IsKept : (cs : List Command) (b : Books) → P b → P (run_all cs b)
  unfolding run_all
  run_all-IsKept [] b p = p
  run_all-IsKept (c ∷ cs) b p = run_all-IsKept cs _ (step-IsKept c b p)

IsBalanced-IsKept : IsKept IsBalanced
unfolding IsBalanced record_fee_overrun
IsBalanced-IsKept = record {
  ensured = λ auth b valid o. simp balance-ensure_accounts (valid o);
  overrun = λ auth id r a b valid o. valid o;
  posted = post-IsBalanced;
}

Reconciles-IsKept : IsKept Reconciles
unfolding Reconciles ensure_accounts record_fee_overrun
Reconciles-IsKept = record {
  ensured = λ auth b r j. balance-ensure_accounts j auth b ∙ r j;
  overrun = λ auth id r a b q j. q j;
  posted = λ env st id ps b b' h agree. post-Reconciles env st id ps b b' h;
}

-- From empty books, whatever operations ran or were refused, every owner's assets and expenses
-- equal its liabilities and revenue.
pub history-IsBalanced :
    (history : List Command) (o : FinancialContext)
    → holdings o (run_all history empty_books) ≡ claims o (run_all history empty_books)
unfolding IsBalanced ◌+ℤ◌ balance
history-IsBalanced history =
    run_all-IsKept IsBalanced IsBalanced-IsKept history empty_books (λ o. refl)

-- From empty books, whatever operations ran or were refused, the balance of every account is the
-- signed sum of the entries on it.
pub history-Reconciles :
    (history : List Command) (k : AccountKey)
    → let b = run_all history empty_books in
      balance k b.accounts ≡ effect k (entry_postings b.entries)
unfolding Reconciles balance
history-Reconciles history =
    run_all-IsKept Reconciles Reconciles-IsKept history empty_books (λ k. refl)
