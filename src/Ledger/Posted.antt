-- ===== src/Ledger/Posted.antt =====
-- apps/api/src/ledger/ledger.service.ts: the post that each operation makes.
use pay.Shared.{
  ℕ, ◌≡◌, Bool, true, if◌then◌else◌, ok, require, >>=-eq-ok, require-eq-ok,
  insufficient_merchant_balance, crosses_environments,
}
use pay.Shared.Int.{ℤ, pos, ltb_ℤ, leb_ℤ}
use pay.Domain.{FinancialContext, same_environment}
use pay.Ledger.Accounts.{
  Books, ensure_accounts, available_minor, suspense_resolution, withdrawal_reservation,
  internal_move_fee_reservation, withdrawal_settlement, internal_move_fee_settlement,
}
use pay.Ledger.Journal.{post}
use pay.Ledger.Operations.{
  SettlementValues, settlement_lines, internal_move_lines, restore_lines, suspense_lines,
  release_suspense_to_merchant, reserve_withdrawal, reserve_internal_move_fee, settle_withdrawal,
  settle_internal_move_fee, record_fee_overrun, provider_fee_adjustment, settlement_adjustment,
}

pub release_suspense-posted :
    (source target : FinancialContext) (id : ℕ) (x : ℤ) (b b' : Books)
    → release_suspense_to_merchant source target id x b ≡ ok b'
    → (same_environment source.environment target.environment ≡ true)
      × (post target.environment suspense_resolution id
            (suspense_lines source target x)
            (ensure_accounts target (ensure_accounts source b))
          ≡ ok b')
unfolding release_suspense_to_merchant
release_suspense-posted source target id x b b' h =
    let (u, required, posted) =
      >>=-eq-ok
        (require (same_environment source.environment target.environment) crosses_environments)
        (λ _.
          post target.environment suspense_resolution id (suspense_lines source target x)
            (ensure_accounts target (ensure_accounts source b)))
        h in
    (require-eq-ok _ _ required, posted)

pub reserve_withdrawal-posted :
    (auth : FinancialContext) (id : ℕ) (x : ℤ) (b b' : Books)
    → reserve_withdrawal auth id x b ≡ ok b'
    → (leb_ℤ x (available_minor auth (ensure_accounts auth b)) ≡ true)
      × (post auth.environment withdrawal_reservation id
            (restore_lines auth x)
            (ensure_accounts auth b)
          ≡ ok b')
unfolding reserve_withdrawal
reserve_withdrawal-posted auth id x b b' h =
    let (u, required, posted) =
      >>=-eq-ok
        (require (leb_ℤ x (available_minor auth (ensure_accounts auth b)))
          insufficient_merchant_balance)
        (λ _.
          post auth.environment withdrawal_reservation id (restore_lines auth x)
            (ensure_accounts auth b))
        h in
    (require-eq-ok _ _ required, posted)

pub reserve_fee-posted :
    (auth : FinancialContext) (id : ℕ) (x : ℤ) (b b' : Books)
    → reserve_internal_move_fee auth id x b ≡ ok b'
    → (leb_ℤ x (available_minor auth (ensure_accounts auth b)) ≡ true)
      × (post auth.environment internal_move_fee_reservation id
            (restore_lines auth x)
            (ensure_accounts auth b)
          ≡ ok b')
unfolding reserve_internal_move_fee
reserve_fee-posted auth id x b b' h =
    let (u, required, posted) =
      >>=-eq-ok
        (require (leb_ℤ x (available_minor auth (ensure_accounts auth b)))
          insufficient_merchant_balance)
        (λ _.
          post auth.environment internal_move_fee_reservation id (restore_lines auth x)
            (ensure_accounts auth b))
        h in
    (require-eq-ok _ _ required, posted)

-- `if (overrun > 0n) await this.recordFeeOverrun(...)`
abbrev pub with_overrun : Bool → FinancialContext → ℕ → (reserved actual : ℤ) → Books → Books
with_overrun over auth id r a b = if over then record_fee_overrun auth id r a b else b

pub settle_withdrawal-posted :
    (auth : FinancialContext) (id : ℕ) (v : SettlementValues) (b b' : Books)
    → settle_withdrawal auth id v b ≡ ok b'
    → (b₁ : Books) × (post auth.environment withdrawal_settlement id
          (settlement_lines auth v)
          (ensure_accounts auth b)
        ≡ ok b₁)
      × (ok (
            with_overrun
              (ltb_ℤ (pos 0) (settlement_adjustment v).overrun)
              auth
              id
              v.reserved_provider_fee_minor
              v.actual_provider_fee_minor
              b₁)
          ≡ ok b')
unfolding settle_withdrawal
settle_withdrawal-posted auth id v b b' h =
    >>=-eq-ok
      (post auth.environment withdrawal_settlement id (settlement_lines auth v)
        (ensure_accounts auth b))
      (λ b₁. ok (
        with_overrun (ltb_ℤ (pos 0) (settlement_adjustment v).overrun) auth id
          v.reserved_provider_fee_minor v.actual_provider_fee_minor b₁))
      h

pub settle_fee-posted :
    (auth : FinancialContext) (id : ℕ) (x r a : ℤ) (b b' : Books)
    → settle_internal_move_fee auth id x r a b ≡ ok b'
    → (b₁ : Books) × (post auth.environment internal_move_fee_settlement id
          (internal_move_lines auth x r a)
          (ensure_accounts auth b)
        ≡ ok b₁)
      × (ok (with_overrun (ltb_ℤ (pos 0) (provider_fee_adjustment r a).overrun) auth id r a b₁)
          ≡ ok b')
unfolding settle_internal_move_fee
settle_fee-posted auth id x r a b b' h =
    >>=-eq-ok
      (post auth.environment internal_move_fee_settlement id (internal_move_lines auth x r a)
        (ensure_accounts auth b))
      (λ b₁. ok (with_overrun (ltb_ℤ (pos 0) (provider_fee_adjustment r a).overrun) auth id r a b₁))
      h
