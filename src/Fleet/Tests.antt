-- ===== src/Fleet/Tests.antt =====
-- Choices of a SIM at concrete candidates.
use pay.Shared.{◌≡◌, refl, false, none, [], ◌∷◌, All, any, err, no_physical_liquidity}
use pay.Shared.Int.{pos, ◌+ℤ◌, ◌-ℤ◌, ◌≤ℤ◌}
use pay.Samples.{shop, sim, phone, fleet}
use pay.Withdrawals.{addis_financial_day}
use pay.Parsers.Phone.{codes, ends_with, same_text}
use pay.Shared.Sorting.{filter, take, sort, insert}
use pay.Fleet.Selection.{
  SimCandidate, sent_on, available_on, is_live_candidate, is_live_fleet_identity,
  allowed_for_merchant, live_candidates, within_withdrawal_capacity, can_pay, viable_for_withdrawal,
  select_for_withdrawal, total_deposits, predicted_deposit_balance,
}
use pay.Fleet.Receiving.{
  last_four, count, has_headroom, collides, viable_for_deposit, select_for_deposit,
}
use pay.Fleet.Choice.{select_for_withdrawal-IsFunded, select_for_deposit-IsUnambiguous}

abbrev poor : SimCandidate
poor = record {
  id = 6;
  sim = sim;
  device = phone;
  group = fleet;
  merchants = [];
  deposits = record { amount_minor = pos 700; customer_phone = codes "+251911223344" } ∷ [];
}

abbrev rich : SimCandidate
rich = record poor { id = 8; sim = record sim { main_balance_minor = pos 95000 }; deposits = [] }

choices : Unit {0}
unfolding select_for_withdrawal viable_for_withdrawal live_candidates is_live_candidate
    is_live_fleet_identity allowed_for_merchant within_withdrawal_capacity can_pay
    select_for_deposit viable_for_deposit has_headroom collides last_four count total_deposits
    predicted_deposit_balance filter take sort insert any ends_with same_text addis_financial_day
    ◌+ℤ◌ ◌-ℤ◌
choices = tt

none_can_pay :
    select_for_withdrawal 110000 600 shop (pos 90000) poor (poor ∷ rich ∷ [])
    ≡ err no_physical_liquidity
unfolding choices
none_can_pay = refl

select_for_withdrawal-IsFunded_example :
    (pos 5000 ≤ℤ available_on rich)
    × (sent_on 110000 rich.sim +ℤ rich.sim.reserved_balance_minor +ℤ pos 5000
        ≤ℤ rich.group.daily_limit_minor)
    × All
        (λ d. d.sim.main_balance_minor ≤ℤ rich.sim.main_balance_minor)
        (viable_for_withdrawal 110000 600 shop (pos 5000) (poor ∷ rich ∷ []))
unfolding choices
select_for_withdrawal-IsFunded_example =
    select_for_withdrawal-IsFunded 110000 600 shop (pos 5000) poor rich (poor ∷ rich ∷ []) refl refl

select_for_deposit-IsUnambiguous_example :
    (predicted_deposit_balance rich.sim.main_balance_minor rich.deposits (pos 700)
      ≤ℤ rich.group.wallet_ceiling_minor -ℤ rich.group.safety_headroom_minor)
    × (any (collides (pos 700) (last_four (codes "+251977223344"))) rich.deposits ≡ false)
unfolding choices
select_for_deposit-IsUnambiguous_example =
    select_for_deposit-IsUnambiguous 110000 600 shop none (codes "+251977223344") (pos 700) poor
      rich (poor ∷ rich ∷ []) refl refl
