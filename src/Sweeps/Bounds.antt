-- ===== src/Sweeps/Bounds.antt =====
-- apps/api/src/sweeps/sweeps.service.ts: the bounds of the amount of a sweep.
use pay.Shared.{
  ℕ, ◌≤◌, ◌≡◌, refl, Bool, true, false, ◌||◌, ◌⊎◌, inl, inr, ltb, ltb→lt, if◌then◌else◌, Table,
  arith,
}
use pay.Shared.Int.{ℤ, pos, ◌+ℤ◌, ◌-ℤ◌, ◌≤ℤ◌, leb_ℤ, ltb_ℤ, int_laws}
use pay.Store.{SweepRule, DeviceGroup, MerchantConfig, SimWallet, Transfer}
use pay.Fleet.Selection.{sent_on}
use pay.Sweeps.Rules.{SweepAmountInput, usable, calculate_sweep_amount}
use pay.Sweeps.Execution.{remaining_daily, lesser, amount_input, pending_outflow}

-- nothing, or a positive amount that stays under the cap and leaves the target in the wallet
abbrev pub IsMeasured : (u t m h a : ℤ) → Type 0
IsMeasured u t m h a =
    (a ≡ pos 0) ⊎ ((leb_ℤ a (pos 0) ≡ false) × (leb_ℤ u h ≡ false) × (a ≤ℤ m) × (t +ℤ a ≤ℤ u))

not_lt : (a b : ℕ) → ltb a b ≡ false → b ≤ a
not_lt a b h = ground arith

-- by the outcomes of the four comparisons
chosen-IsMeasured :
    (u t m h : ℤ) (low none_left capped less : Bool)
    → leb_ℤ u h ≡ low
    → leb_ℤ (u -ℤ t) (pos 0) ≡ none_left
    → leb_ℤ m (pos 0) ≡ capped
    → ltb_ℤ (u -ℤ t) m ≡ less
    → IsMeasured u t m h
        (if low then pos 0 else if none_left || capped then pos 0 else if less then u -ℤ t else m)
chosen-IsMeasured u t m h true n c l el en ec ee = inl refl
chosen-IsMeasured u t m h false true c l el en ec ee = inl refl
chosen-IsMeasured u t m h false false true l el en ec ee = inl refl
chosen-IsMeasured u t m h false false false true el en ec ee =
    let below = ltb→lt _ _ ee in inr (en, el, omega arith, omega int_laws)
chosen-IsMeasured u t m h false false false false el en ec ee =
    let above = not_lt _ _ ee in inr (ec, el, omega arith, omega int_laws)

-- The amount of a sweep is nothing, or it is positive, at most the cap of a run, taken from a usable
-- balance above the high-water mark, and what is left of the usable balance is at least the target.
pub calculate_sweep_amount-IsMeasured :
    (i : SweepAmountInput)
    → IsMeasured
        (usable i)
        i.target_minor
        i.max_per_run_minor
        i.high_water_minor
        (calculate_sweep_amount i)
unfolding calculate_sweep_amount
calculate_sweep_amount-IsMeasured i =
    chosen-IsMeasured (usable i) i.target_minor i.max_per_run_minor i.high_water_minor _ _ _ _ refl
      refl refl refl

lesser-IsLower :
    (a b : ℤ) (less : Bool)
    → ltb_ℤ a b ≡ less
    → ((if less then a else b) ≤ℤ a) × ((if less then a else b) ≤ℤ b)
lesser-IsLower a b true e = let h = ltb→lt _ _ e in (omega arith, omega arith)
lesser-IsLower a b false e = let h = not_lt _ _ e in (omega arith, omega arith)

-- The sweep of a SIM keeps the group's daily limit, the cap of a run, and the rule's target on top of
-- what is reserved and what the group keeps for safety.
abbrev pub IsWithinLimits :
    (now : ℕ)
    → SweepRule
    → DeviceGroup
    → MerchantConfig
    → (sim_id : ℕ) → SimWallet
    → Table Transfer
    → (amount : ℤ) → Type 0
IsWithinLimits now rule g c sim_id s transfers amount =
    (sent_on now s +ℤ pending_outflow sim_id transfers +ℤ (amount +ℤ c.reserve_provider_fee_minor)
      ≤ℤ g.daily_limit_minor)
    × (amount ≤ℤ rule.max_per_run_minor)
    × (rule.target_balance_minor
          +ℤ amount
          +ℤ g.safety_balance_minor
          +ℤ (s.reserved_balance_minor +ℤ c.reserve_provider_fee_minor)
        ≤ℤ s.main_balance_minor)

module _ (now : ℕ) (rule : SweepRule) (g : DeviceGroup) (c : MerchantConfig) (sim_id : ℕ)
    (s : SimWallet) (transfers : Table Transfer) where
  measured-IsWithinLimits :
      (a : ℤ)
      → IsMeasured
          (usable (amount_input rule g c s (remaining_daily now g c sim_id s transfers)))
          rule.target_balance_minor
          (lesser (remaining_daily now g c sim_id s transfers) rule.max_per_run_minor)
          rule.high_water_minor
          a
      → leb_ℤ a (pos 0) ≡ false
      → IsWithinLimits now rule g c sim_id s transfers a
  measured-IsWithinLimits a (inl e) some_left = let never : true ≡ false = rw e at some_left in cc
  measured-IsWithinLimits a (inr (left, high, cap, target)) some_left =
      let low =
        lesser-IsLower (remaining_daily now g c sim_id s transfers) rule.max_per_run_minor _ refl in
      (omega (int_laws, low.0, cap), omega (arith, low.1, cap), omega (int_laws, target))

  pub sweep_amount-IsWithinLimits :
      (b : Bool)
      → leb_ℤ (remaining_daily now g c sim_id s transfers) (pos 0) ≡ b
      → let a =
          (if b
            then pos 0
            else calculate_sweep_amount
                (amount_input rule g c s (remaining_daily now g c sim_id s transfers))) in
        leb_ℤ a (pos 0) ≡ false → IsWithinLimits now rule g c sim_id s transfers a
  sweep_amount-IsWithinLimits true e some_left = cc
  sweep_amount-IsWithinLimits false e some_left =
      measured-IsWithinLimits _
        (calculate_sweep_amount-IsMeasured
          (amount_input rule g c s (remaining_daily now g c sim_id s transfers)))
        some_left
