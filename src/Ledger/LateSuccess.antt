-- ===== src/Ledger/LateSuccess.antt =====
-- apps/api/src/ledger/ledger.service.ts: a payout that staff have released and that its provider
-- confirms afterwards.
use pay.Shared.{ℕ, ◌≡◌, refl, false, ok}
use pay.Shared.Int.{ℤ, pos, ◌+ℤ◌, int_laws, parts}
use pay.Domain.{FinancialContext}
use pay.Ledger.Accounts.{
  LedgerCode, available, reserved, custody, treasury_custody, provider_fees, platform_fees,
  suspense, same_account, Books, ensure_accounts, withdrawal_settlement, withdrawal_release,
  withdrawal_late_rereservation, SourceType,
}
use pay.Ledger.Journal.{has_journal}
use pay.Ledger.Operations.{
  SettlementValues, release_lines, restore_lines, settle_withdrawal, release_withdrawal_reservation,
  restore_released_withdrawal,
}
use pay.Ledger.Effects.{effect}
use pay.Ledger.TrialBalance.{at}
use pay.Ledger.Written.{has_journal-post_other}
use pay.Ledger.Settlement.{of, moves, settle-moves, reserved_total, effect-restore, effect-release}

-- what a release does to an account, the restoration undoes
effect-undone :
    (o : FinancialContext) (c : LedgerCode) (x : ℤ)
    → effect (at o c) (release_lines o x) +ℤ effect (at o c) (restore_lines o x) ≡ pos 0
unfolding effect same_account
effect-undone o available x =
    omega (int_laws, parts (effect-release o x).0, parts (effect-restore o x).0)
effect-undone o reserved x =
    omega (int_laws, parts (effect-release o x).1, parts (effect-restore o x).1)
effect-undone o custody x = omega int_laws
effect-undone o treasury_custody x = omega int_laws
effect-undone o provider_fees x = omega int_laws
effect-undone o platform_fees x = omega int_laws
effect-undone o suspense x = omega int_laws

-- A payout whose reservation was released as failed, and that the provider then proves paid, is
-- held again and settled: each of the owner's accounts ends where the settlement alone would have
-- left it, whatever the provider's fee was.
pub late_success-settles :
    (o : FinancialContext) (id : ℕ) (v : SettlementValues) (b b₁ b₂ b₃ direct : Books)
    → has_journal withdrawal_release id b.journals ≡ false
    → has_journal withdrawal_late_rereservation id b.journals ≡ false
    → has_journal withdrawal_settlement id b.journals ≡ false
    → release_withdrawal_reservation o id (reserved_total v) b ≡ ok b₁
    → restore_released_withdrawal o id (reserved_total v) b₁ ≡ ok b₂
    → settle_withdrawal o id v b₂ ≡ ok b₃
    → settle_withdrawal o id v b ≡ ok direct
    → (c : LedgerCode) → of o c b₃ ≡ of o c direct
unfolding release_withdrawal_reservation restore_released_withdrawal ensure_accounts
late_success-settles o id v b b₁ b₂ b₃ direct no_release no_restore no_settle release restore settle
      straight c =
    let x = reserved_total v in
    let later : (st : SourceType) → _ = λ st.
      has_journal-post_other o.environment withdrawal_release id (release_lines o x)
        (ensure_accounts o b) b₁ release st id in
    let last : has_journal withdrawal_settlement id b₂.journals ≡ false =
      has_journal-post_other o.environment withdrawal_late_rereservation id (restore_lines o x)
        (ensure_accounts o b₁) b₂ restore withdrawal_settlement id refl
        (later withdrawal_settlement refl no_settle) in
    let freed = moves o id b b₁ withdrawal_release (release_lines o x) release no_release c in
    let held =
      moves o id b₁ b₂ withdrawal_late_rereservation (restore_lines o x) restore
        (later withdrawal_late_rereservation refl no_restore) c in
    omega (
      int_laws,
      parts freed,
      parts held,
      parts (settle-moves o id v b₂ b₃ settle last c),
      parts (settle-moves o id v b direct straight no_settle c),
      parts (effect-undone o c x),
    )
