-- ===== src/Ledger/Repeat.antt =====
-- apps/api/src/ledger/ledger.service.ts: the same operation, a second time.
use pay.Shared.{ℕ, ◌≡◌, refl, true, false, List, [], ◌∷◌, ok, ok_injective}
use pay.Shared.Int.{ℤ, pos, ltb_ℤ}
use pay.Domain.{Environment, FinancialContext}
use pay.Ledger.Accounts.{
  suspense, available, custody, deposit, receipt_suspense, suspense_resolution,
  withdrawal_settlement, internal_move_fee_settlement, withdrawal_release,
  internal_move_fee_release, withdrawal_late_rereservation, internal_move_fee_late_rereservation,
  debit, credit, Posting, SourceType, Books, ensure_accounts,
}
use pay.Ledger.Journal.{has_journal, post}
use pay.Ledger.TrialBalance.{at}
use pay.Ledger.Operations.{
  line, SettlementValues, settlement_adjustment, settlement_lines, internal_move_lines,
  release_lines, restore_lines, suspense_lines, provider_fee_adjustment, credit_deposit,
  move_receipt_to_suspense, release_suspense_to_merchant, settle_withdrawal, record_fee_overrun,
  settle_internal_move_fee, release_withdrawal_reservation, release_internal_move_fee,
  restore_released_withdrawal, restore_released_internal_move_fee,
}
use pay.Ledger.Posted.{release_suspense-posted, settle_withdrawal-posted, settle_fee-posted}
use pay.Ledger.Commands.{
  Command, credit_deposit_of, suspend, release_suspense, reserve, reserve_fee, settle, settle_fee,
  release, release_fee, restore, restore_fee, run, run_all, IsKept, run_all-IsKept,
}
use pay.Ledger.Totality.{
  HasAccounts, ensure_accounts-HasAccounts, ensure_accounts-keeps, ensure_accounts_noop,
}
use pay.Ledger.Written.{IsOpen-post, has_journal-post, has_journal-post_keeps, post-again}

-- Operations that check nothing but their journal: all but the reservations, which look at the
-- available balance again, and a settlement with an overrun, which opens a case each time.
abbrev pub IsReplayable : Command → Type 0
IsReplayable (reserve _ _ _) = ⊥
IsReplayable (reserve_fee _ _ _) = ⊥
IsReplayable (settle _ _ v) = ltb_ℤ (pos 0) (settlement_adjustment v).overrun ≡ false
IsReplayable (settle_fee _ _ _ r a) = ltb_ℤ (pos 0) (provider_fee_adjustment r a).overrun ≡ false
IsReplayable _ = Unit {0}

-- The journal of the source is written and the accounts of its owner are open.
unfoldable IsApplied : SourceType → ℕ → FinancialContext → Books → Type 0
IsApplied st id auth b = HasAccounts auth b.accounts × (has_journal st id b.journals ≡ true)

-- every operation on the books, of whatever source, keeps this
IsApplied-IsKept :
    (st : SourceType) (id : ℕ) (auth : FinancialContext) → IsKept (IsApplied st id auth)
unfolding IsApplied ensure_accounts record_fee_overrun
IsApplied-IsKept st id auth = record {
  ensured =
      λ other b (opened, old). (λ c. ensure_accounts-keeps (at auth c) other b (opened c), old);
  overrun = λ other id' r a b p. p;
  posted = λ env st' id' ps b b' h agree (opened, old). (
    λ c. IsOpen-post env st' id' ps b b' h (at auth c) (opened c),
    has_journal-post_keeps env st' st id' id ps b b' h old,
  );
}

IsApplied-post :
    (env : Environment) (auth : FinancialContext) (st : SourceType) (id : ℕ) (ps : List Posting)
    (b b' : Books)
    → HasAccounts auth b.accounts
    → post env st id ps b ≡ ok b'
    → IsApplied st id auth b'
unfolding IsApplied
IsApplied-post env auth st id ps b b' opened h = (
  λ c. IsOpen-post env st id ps b b' h (at auth c) (opened c),
  has_journal-post env st id ps b b' h,
)

post-applied :
    (env : Environment) (auth : FinancialContext) (st : SourceType) (id : ℕ) (ps : List Posting)
    (start b' b : Books)
    → post env st id ps start ≡ ok b'
    → IsApplied st id auth b
    → post env st id ps (ensure_accounts auth b) ≡ ok b
unfolding IsApplied
post-applied env auth st id ps start b' b h (opened, old) =
    rw (ensure_accounts_noop auth b opened) (post-again env st id ps start b' b h old)

module _ (history : List Command) (b' : Books) where
  abbrev later : Books
  later = run_all history b'

  repeat_own :
      (auth : FinancialContext) (st : SourceType) (id : ℕ) (ps : List Posting) (b : Books)
      → post auth.environment st id ps (ensure_accounts auth b) ≡ ok b'
      → post auth.environment st id ps (ensure_accounts auth later) ≡ ok later
  repeat_own auth st id ps b h =
      post-applied auth.environment auth st id ps (ensure_accounts auth b) b' later h (
        run_all-IsKept (IsApplied st id auth) (IsApplied-IsKept st id auth) history b' (
          IsApplied-post auth.environment auth st id ps (ensure_accounts auth b) b'
            (ensure_accounts-HasAccounts auth b) h))

  repeat_suspense :
      (source target : FinancialContext) (id : ℕ) (x : ℤ) (b : Books)
      → release_suspense_to_merchant source target id x b ≡ ok b'
      → release_suspense_to_merchant source target id x later ≡ ok later
  unfolding release_suspense_to_merchant IsApplied
  repeat_suspense source target id x b h =
      let (same, posted) = release_suspense-posted source target id x b b' h in
      let start = ensure_accounts target (ensure_accounts source b) in
      let lines = suspense_lines source target x in
      let sources =
        run_all-IsKept (IsApplied suspense_resolution id source)
          (IsApplied-IsKept suspense_resolution id source) history b'
          (IsApplied-post target.environment source suspense_resolution id lines start b'
            (λ c.
              ensure_accounts-keeps (at source c) target (ensure_accounts source b)
                (ensure_accounts-HasAccounts source b c))
            posted) in
      let targets =
        run_all-IsKept (IsApplied suspense_resolution id target)
          (IsApplied-IsKept suspense_resolution id target) history b'
          (IsApplied-post target.environment target suspense_resolution id lines start b'
            (ensure_accounts-HasAccounts target (ensure_accounts source b)) posted) in
      rw (same, ensure_accounts_noop source later sources.0)
        (post-applied target.environment target suspense_resolution id lines start b' later posted
          targets)

  repeat_settle :
      (auth : FinancialContext) (id : ℕ) (v : SettlementValues) (b : Books)
      → ltb_ℤ (pos 0) (settlement_adjustment v).overrun ≡ false
      → settle_withdrawal auth id v b ≡ ok b'
      → settle_withdrawal auth id v later ≡ ok later
  unfolding settle_withdrawal
  repeat_settle auth id v b none_over h =
      let (b₁, posted, same) = settle_withdrawal-posted auth id v b b' h in
      let same' : b₁ ≡ b' = ok_injective (rw none_over at same) in
      rw
        (
          repeat_own auth withdrawal_settlement id (settlement_lines auth v) b (rw same' at posted),
          none_over,
        )
        refl

  repeat_settle_fee :
      (auth : FinancialContext) (id : ℕ) (x r a : ℤ) (b : Books)
      → ltb_ℤ (pos 0) (provider_fee_adjustment r a).overrun ≡ false
      → settle_internal_move_fee auth id x r a b ≡ ok b'
      → settle_internal_move_fee auth id x r a later ≡ ok later
  unfolding settle_internal_move_fee
  repeat_settle_fee auth id x r a b none_over h =
      let (b₁, posted, same) = settle_fee-posted auth id x r a b b' h in
      let same' : b₁ ≡ b' = ok_injective (rw none_over at same) in
      rw
        (
          repeat_own auth internal_move_fee_settlement id (internal_move_lines auth x r a) b
              (rw same' at posted),
          none_over,
        )
        refl

  -- An operation that has succeeded changes nothing when it runs again with the same arguments, at
  -- once or after any further history of operations: it succeeds and leaves the books as they are.
  -- The reservations are excluded, and so are the settlements whose actual fee overruns the
  -- reserved one, which open a case each time.
  pub run-repeat :
      (c : Command) (b : Books) → IsReplayable c → run c b ≡ ok b' → run c later ≡ ok later
  unfolding run credit_deposit move_receipt_to_suspense release_withdrawal_reservation
      release_internal_move_fee restore_released_withdrawal restore_released_internal_move_fee
  run-repeat (credit_deposit_of auth id x) b r h =
      repeat_own auth deposit id (line auth custody debit x ∷ line auth available credit x ∷ []) b h
  run-repeat (suspend auth id x) b r h =
      repeat_own auth receipt_suspense id
        (line auth custody debit x ∷ line auth suspense credit x ∷ []) b h
  run-repeat (release_suspense source target id x) b r h = repeat_suspense source target id x b h
  run-repeat (reserve auth id x) b r h = absurd r
  run-repeat (reserve_fee auth id x) b r h = absurd r
  run-repeat (settle auth id v) b r h = repeat_settle auth id v b r h
  run-repeat (settle_fee auth id x f a) b r h = repeat_settle_fee auth id x f a b r h
  run-repeat (release auth id x) b r h =
      repeat_own auth withdrawal_release id (release_lines auth x) b h
  run-repeat (release_fee auth id x) b r h =
      repeat_own auth internal_move_fee_release id (release_lines auth x) b h
  run-repeat (restore auth id x) b r h =
      repeat_own auth withdrawal_late_rereservation id (restore_lines auth x) b h
  run-repeat (restore_fee auth id x) b r h =
      repeat_own auth internal_move_fee_late_rereservation id (restore_lines auth x) b h
