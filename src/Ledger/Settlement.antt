-- ===== src/Ledger/Settlement.antt =====
-- apps/api/src/ledger/ledger.service.ts: the life of one withdrawal's funds.
use pay.Shared.{
  ℕ, ◌≡◌, refl, ◌∙◌, ap, Bool, true, false, List, arith, any, ok, ok_injective, leb→le,
}
use pay.Shared.Int.{ℤ, pos, ◌+ℤ◌, ◌-ℤ◌, ◌≤ℤ◌, ltb_ℤ, int_laws, parts}
use pay.Domain.{FinancialContext}
use pay.Ledger.Accounts.{
  LedgerCode, available, reserved, custody, platform_fees, debit, credit, Posting, SourceType,
  available_minor, LedgerAccount, same_account, Books, balance, ensure_accounts,
  withdrawal_reservation, withdrawal_settlement, withdrawal_release,
}
use pay.Ledger.Journal.{change, total, has_journal, post}
use pay.Ledger.Operations.{
  SettlementValues, settlement_adjustment, settlement_lines, release_lines, restore_lines,
  reserve_withdrawal, release_withdrawal_reservation, settle_withdrawal, record_fee_overrun,
}
use pay.Ledger.Posted.{reserve_withdrawal-posted, settle_withdrawal-posted, with_overrun}
use pay.Ledger.Effects.{effect, balance-post, balance-ensure_accounts}
use pay.Ledger.TrialBalance.{at}
use pay.Ledger.Adjustment.{
  provider_fee_adjustment_lem, same_owner_refl, effect-adjustment, adjustment-nonneg,
  total-adjustment,
}
use pay.Ledger.Written.{has_journal-post_other}
use pay.Ledger.Totality.{HasAccounts, AreOpen, post-total, ensure_accounts-HasAccounts}

abbrev pub reserved_total : SettlementValues → ℤ
reserved_total v = v.amount_minor +ℤ v.reserved_provider_fee_minor +ℤ v.gateway_fee_minor

abbrev pub actual_total : SettlementValues → ℤ
actual_total v = v.amount_minor +ℤ v.actual_provider_fee_minor +ℤ v.gateway_fee_minor

effect-settlement :
    (o : FinancialContext) (v : SettlementValues)
    → let ps = settlement_lines o v in
      (effect (at o reserved) ps ≡ pos 0 -ℤ reserved_total v)
      × (effect (at o available) ps ≡ reserved_total v -ℤ actual_total v)
      × (effect (at o custody) ps ≡ pos 0 -ℤ (v.amount_minor +ℤ v.actual_provider_fee_minor))
      × (effect (at o platform_fees) ps ≡ v.gateway_fee_minor)
unfolding effect same_account change
effect-settlement o v =
    let (a, r, c, p, _) = effect-adjustment o (reserved_total v) (actual_total v) in
    rw (same_owner_refl o)
      (omega (int_laws, parts r), a, omega (int_laws, parts c), omega (int_laws, parts p))

pub effect-restore :
    (o : FinancialContext) (x : ℤ)
    → (effect (at o available) (restore_lines o x) ≡ pos 0 -ℤ x)
      × (effect (at o reserved) (restore_lines o x) ≡ x)
unfolding effect same_account change
effect-restore o x = rw (same_owner_refl o) (omega int_laws, omega int_laws)

pub effect-release :
    (o : FinancialContext) (x : ℤ)
    → (effect (at o available) (release_lines o x) ≡ x)
      × (effect (at o reserved) (release_lines o x) ≡ pos 0 -ℤ x)
unfolding effect same_account change
effect-release o x = rw (same_owner_refl o) (omega int_laws, omega int_laws)

abbrev pub of : FinancialContext → LedgerCode → Books → ℤ
of o c b = balance (at o c) b.accounts

-- A post from freshly ensured accounts.
pub moves :
    (o : FinancialContext) (id : ℕ) (b b' : Books) (st : SourceType) (ps : List Posting)
    → post o.environment st id ps (ensure_accounts o b) ≡ ok b'
    → has_journal st id b.journals ≡ false
    → (c : LedgerCode) → of o c b' ≡ of o c b +ℤ effect (at o c) ps
unfolding ensure_accounts
moves o id b b' st ps h new c =
    balance-post o.environment st id ps (ensure_accounts o b) b' h new (at o c)
    ∙ ap (λ x. x +ℤ effect (at o c) ps) (balance-ensure_accounts (at o c) o b)

accounts-with_overrun :
    (over : Bool) (o : FinancialContext) (id : ℕ) (r a : ℤ) (b : Books)
    → (with_overrun over o id r a b).accounts ≡ b.accounts
unfolding record_fee_overrun
accounts-with_overrun true o id r a b = refl
accounts-with_overrun false o id r a b = refl

pub settle-moves :
    (o : FinancialContext) (id : ℕ) (v : SettlementValues) (b b' : Books)
    → settle_withdrawal o id v b ≡ ok b'
    → has_journal withdrawal_settlement id b.journals ≡ false
    → (c : LedgerCode) → of o c b' ≡ of o c b +ℤ effect (at o c) (settlement_lines o v)
settle-moves o id v b b' h new c =
    let (b₁, posted, same) = settle_withdrawal-posted o id v b b' h in
    rw (← ok_injective same, accounts-with_overrun)
      (moves o id b b₁ withdrawal_settlement (settlement_lines o v) posted new c)

settlement-nonneg :
    (v : SettlementValues) (o : FinancialContext)
    → pos 0 ≤ℤ v.amount_minor
    → pos 0 ≤ℤ v.reserved_provider_fee_minor
    → pos 0 ≤ℤ v.actual_provider_fee_minor
    → pos 0 ≤ℤ v.gateway_fee_minor
    → any (λ p. ltb_ℤ p.amount_minor (pos 0)) (settlement_lines o v) ≡ false
unfolding any
settlement-nonneg v o ha hr hf hg =
    let (refund, overrun, _, _) = provider_fee_adjustment_lem (reserved_total v) (actual_total v) in
    let whole : pos 0 ≤ℤ reserved_total v = omega int_laws in
    ground (arith, whole, adjustment-nonneg o (settlement_adjustment v) refund overrun)

settlement-totals :
    (o : FinancialContext) (v : SettlementValues)
    → total debit (settlement_lines o v) ≡ total credit (settlement_lines o v)
unfolding total
settlement-totals o v =
    omega (int_laws, parts (total-adjustment o (reserved_total v) (actual_total v)))

settlement-AreOpen :
    (o : FinancialContext) (v : SettlementValues) (rows : List LedgerAccount)
    → HasAccounts o rows
    → AreOpen (settlement_lines o v) rows
settlement-AreOpen o v rows h =
    (h reserved, (h custody, (h custody, (h platform_fees, ground (arith, h available)))))

module _ (o : FinancialContext) (id : ℕ) (b b' : Books) where
  -- A new reservation that succeeds was covered by the available balance, and moves exactly its
  -- amount from `available` to `reserved`.
  pub reserve_withdrawal-moves :
      (x : ℤ)
      → reserve_withdrawal o id x b ≡ ok b'
      → has_journal withdrawal_reservation id b.journals ≡ false
      → (x ≤ℤ of o available b)
        × (of o available b' ≡ of o available b -ℤ x)
        × (of o reserved b' ≡ of o reserved b +ℤ x)
  unfolding available_minor
  reserve_withdrawal-moves x h new =
      let (covered, posted) = reserve_withdrawal-posted o id x b b' h in
      let move = moves o id b b' withdrawal_reservation (restore_lines o x) posted new in
      let (a, r) = effect-restore o x in
      (
        rw (← balance-ensure_accounts (at o available) o b) (leb→le _ _ covered),
        omega (int_laws, parts (move available), parts a),
        omega (int_laws, parts (move reserved), parts r),
      )

  -- A new settlement clears the whole reserved total, pays the principal and the actual provider
  -- fee out of custody, books the gateway fee, and returns the reserved total less the actual one
  -- to `available`: a refund where it is positive, an overrun where it is negative.
  pub settle_withdrawal-moves :
      (v : SettlementValues)
      → settle_withdrawal o id v b ≡ ok b'
      → has_journal withdrawal_settlement id b.journals ≡ false
      → (of o reserved b' ≡ of o reserved b -ℤ reserved_total v)
        × (of o available b' ≡ of o available b +ℤ (reserved_total v -ℤ actual_total v))
        × (of o custody b' ≡ of o custody b -ℤ (v.amount_minor +ℤ v.actual_provider_fee_minor))
        × (of o platform_fees b' ≡ of o platform_fees b +ℤ v.gateway_fee_minor)
  settle_withdrawal-moves v h new =
      let move = settle-moves o id v b b' h new in
      let (r, a, c, p) = effect-settlement o v in
      (
        omega (int_laws, parts (move reserved), parts r),
        omega (int_laws, parts (move available), parts a),
        omega (int_laws, parts (move custody), parts c),
        omega (int_laws, parts (move platform_fees), parts p),
      )

  -- A new release moves exactly its amount from `reserved` back to `available`.
  pub release_withdrawal-moves :
      (x : ℤ)
      → release_withdrawal_reservation o id x b ≡ ok b'
      → has_journal withdrawal_release id b.journals ≡ false
      → (of o available b' ≡ of o available b +ℤ x) × (of o reserved b' ≡ of o reserved b -ℤ x)
  unfolding release_withdrawal_reservation
  release_withdrawal-moves x h new =
      let move = moves o id b b' withdrawal_release (release_lines o x) h new in
      let (a, r) = effect-release o x in
      (
        omega (int_laws, parts (move available), parts a),
        omega (int_laws, parts (move reserved), parts r),
      )

-- A settlement of amounts that are not negative succeeds from any books: its journal balances
-- whether the provider fee was below, at or above its reserve.
pub settle_withdrawal-total :
    (o : FinancialContext) (id : ℕ) (v : SettlementValues) (b : Books)
    → pos 0 ≤ℤ v.amount_minor
    → pos 0 ≤ℤ v.reserved_provider_fee_minor
    → pos 0 ≤ℤ v.actual_provider_fee_minor
    → pos 0 ≤ℤ v.gateway_fee_minor
    → (b' : Books) × (settle_withdrawal o id v b ≡ ok b')
unfolding settle_withdrawal
settle_withdrawal-total o id v b ha hr hf hg =
    let (b₁, e) =
      post-total o.environment withdrawal_settlement id (settlement_lines o v) (ensure_accounts o b)
        (settlement-nonneg v o ha hr hf hg) (settlement-totals o v)
        (settlement-AreOpen o v _ (ensure_accounts-HasAccounts o b)) in
    let over = ltb_ℤ (pos 0) (settlement_adjustment v).overrun in
    (with_overrun over o id v.reserved_provider_fee_minor v.actual_provider_fee_minor b₁, rw e refl)

-- A withdrawal that is reserved and then settled takes exactly what it cost from the merchant: the
-- reserve is back where it was, `available` is down by the actual total, custody is down by the
-- principal and the provider fee, and the gateway fee is earned.
pub reserve-settle :
    (o : FinancialContext) (id : ℕ) (v : SettlementValues) (b b₁ b₂ : Books)
    → has_journal withdrawal_reservation id b.journals ≡ false
    → has_journal withdrawal_settlement id b.journals ≡ false
    → reserve_withdrawal o id (reserved_total v) b ≡ ok b₁
    → settle_withdrawal o id v b₁ ≡ ok b₂
    → (of o reserved b₂ ≡ of o reserved b)
      × (of o available b₂ ≡ of o available b -ℤ actual_total v)
      × (of o custody b₂ ≡ of o custody b -ℤ (v.amount_minor +ℤ v.actual_provider_fee_minor))
      × (of o platform_fees b₂ ≡ of o platform_fees b +ℤ v.gateway_fee_minor)
unfolding effect same_account change ensure_accounts
reserve-settle o id v b b₁ b₂ fresh_r fresh_s reserve settle =
    let (_, posted) = reserve_withdrawal-posted o id (reserved_total v) b b₁ reserve in
    let held =
      moves o id b b₁ withdrawal_reservation (restore_lines o (reserved_total v)) posted fresh_r in
    let fresh : has_journal withdrawal_settlement id b₁.journals ≡ false =
      has_journal-post_other o.environment withdrawal_reservation id
        (restore_lines o (reserved_total v)) (ensure_accounts o b) b₁ posted withdrawal_settlement
        id refl fresh_s in
    let (r, a, c, p) = settle_withdrawal-moves o id b₁ b₂ v settle fresh in
    let (ra, rr) = effect-restore o (reserved_total v) in
    (
      omega (int_laws, parts r, parts (held reserved), parts rr),
      omega (int_laws, parts a, parts (held available), parts ra),
      omega (int_laws, parts c, parts (held custody)),
      omega (int_laws, parts p, parts (held platform_fees)),
    )
