-- ===== src/Ledger/Adjustment.antt =====
-- apps/api/src/ledger/ledger.service.ts: `providerFeeAdjustment`, and the lines that post it.
use pay.Shared.{◌≡◌, refl, ◌⊎◌, inl, inr, true, false, arith, any, Bool-cases}
use pay.Shared.Int.{ℤ, pos, ◌+ℤ◌, ◌-ℤ◌, ◌≤ℤ◌, ltb_ℤ, leb_ℤ, int_laws}
use pay.Domain.{FinancialContext, same_owner, same_owner_iff}
use pay.Ledger.Accounts.{
  available, reserved, custody, treasury_custody, platform_fees, debit, credit, same_account,
}
use pay.Ledger.Journal.{change, total}
use pay.Ledger.Operations.{FeeAdjustment, provider_fee_adjustment, adjustment_lines}
use pay.Ledger.Effects.{effect}
use pay.Ledger.TrialBalance.{at}

-- At most one of the refund and the overrun is there, neither is negative, and together they
-- bridge the reserved total and the actual one.
pub provider_fee_adjustment_lem :
    (r a : ℤ)
    → let f = provider_fee_adjustment r a in
      (pos 0 ≤ℤ f.refund)
      × (pos 0 ≤ℤ f.overrun)
      × ((f.refund ≡ pos 0) ⊎ (f.overrun ≡ pos 0))
      × (a +ℤ f.refund ≡ r +ℤ f.overrun)
unfolding provider_fee_adjustment ◌-ℤ◌ ◌+ℤ◌
provider_fee_adjustment_lem r a = ground arith

pub same_owner_refl : (o : FinancialContext) → same_owner o o ≡ true
same_owner_refl o = (same_owner_iff o o).1 refl

-- The lines of a refund or an overrun move `available` by the difference, and nothing else.
pub effect-adjustment :
    (o : FinancialContext) (r a : ℤ)
    → let ps = adjustment_lines o (provider_fee_adjustment r a) in
      (effect (at o available) ps ≡ r -ℤ a)
      × (effect (at o reserved) ps ≡ pos 0)
      × (effect (at o custody) ps ≡ pos 0)
      × (effect (at o platform_fees) ps ≡ pos 0)
      × (effect (at o treasury_custody) ps ≡ pos 0)
unfolding effect same_account change provider_fee_adjustment
effect-adjustment o r a = elim (Bool-cases (leb_ℤ a r)) [
  | inl within ↦ elim (Bool-cases (ltb_ℤ (pos 0) (r -ℤ a))) [
    | inl refund ↦ rw (within, refund, same_owner_refl o) (omega int_laws, refl, refl, refl, refl)
    | inr exact ↦ rw (within, exact) (grind int_laws, refl, refl, refl, refl)
  ]
  | inr over ↦ elim (Bool-cases (ltb_ℤ (pos 0) (a -ℤ r))) [
    | inl overrun ↦ rw (over, overrun, same_owner_refl o) (omega int_laws, refl, refl, refl, refl)
    | inr exact ↦ rw (over, exact) (grind int_laws, refl, refl, refl, refl)
  ]
]

pub adjustment-nonneg :
    (o : FinancialContext) (a : FeeAdjustment)
    → pos 0 ≤ℤ a.refund
    → pos 0 ≤ℤ a.overrun
    → any (λ p. ltb_ℤ p.amount_minor (pos 0)) (adjustment_lines o a) ≡ false
unfolding any
adjustment-nonneg o a hr ho = ground arith

pub total-adjustment :
    (o : FinancialContext) (r a : ℤ)
    → let ps = adjustment_lines o (provider_fee_adjustment r a) in
      r +ℤ total debit ps ≡ a +ℤ total credit ps
unfolding total provider_fee_adjustment
total-adjustment o r a = elim (Bool-cases (leb_ℤ a r)) [
  | inl within ↦ elim (Bool-cases (ltb_ℤ (pos 0) (r -ℤ a))) [
    | inl refund ↦ rw (within, refund) (omega int_laws)
    | inr exact ↦ rw (within, exact) (grind int_laws)
  ]
  | inr over ↦ elim (Bool-cases (ltb_ℤ (pos 0) (a -ℤ r))) [
    | inl overrun ↦ rw (over, overrun) (omega int_laws)
    | inr exact ↦ rw (over, exact) (grind int_laws)
  ]
]
