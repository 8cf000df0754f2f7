-- ===== src/Fleet/Receiving.antt =====
-- apps/api/src/fleet/sim-selection.service.ts: `selectForDeposit`. `sticky` is the SIM of the
-- customer's last successful deposit.
use pay.Shared.{
  ℕ, ◌+◌, Bool, true, false, not, ◌&&◌, Option, none, some, List, [], ◌∷◌, ◌==◌, leb, if◌then◌else◌,
  any, Result,
}
use pay.Shared.Int.{ℤ, pos, ◌-ℤ◌, leb_ℤ, ltb_ℤ, eqb_ℤ}
use pay.Domain.{FinancialContext}
use pay.Parsers.Phone.{ends_with}
use pay.Shared.Sorting.{filter, sort}
use pay.Fleet.Selection.{
  SimCandidate, ActiveDeposit, live_candidates, allowed_for_merchant, predicted_deposit_balance,
  in_environment, first_or_refuse,
}

unfoldable pub count : List ℕ → ℕ
count [] = 0
count (x ∷ xs) = count xs + 1

-- `slice(-4)`
unfoldable pub last_four : List ℕ → List ℕ
unfolding count
last_four [] = []
last_four (x ∷ xs) = if leb 4 (count xs) then last_four xs else x ∷ xs

-- the balance that the wallet would have stays below its ceiling
unfoldable pub has_headroom : ℤ → SimCandidate → Bool
has_headroom amount c =
    leb_ℤ (predicted_deposit_balance c.sim.main_balance_minor c.deposits amount)
      (c.group.wallet_ceiling_minor -ℤ c.group.safety_headroom_minor)

-- an active deposit that the same receipt could match
unfoldable pub collides : ℤ → List ℕ → ActiveDeposit → Bool
collides amount suffix d = eqb_ℤ d.amount_minor amount && ends_with suffix d.customer_phone

abbrev is_sticky : Option ℕ → SimCandidate → Bool
is_sticky none c = false
is_sticky (some id) c = c.id == id

-- the sticky SIM first, then the lowest predicted balance
abbrev pub comes_first : Option ℕ → SimCandidate → SimCandidate → Bool
comes_first sticky a b =
    if is_sticky sticky a && not (is_sticky sticky b)
    then true
    else if is_sticky sticky b && not (is_sticky sticky a)
    then false
    else ltb_ℤ (predicted_deposit_balance a.sim.main_balance_minor a.deposits (pos 0))
        (predicted_deposit_balance b.sim.main_balance_minor b.deposits (pos 0))

unfoldable pub viable_for_deposit :
    (now stale : ℕ)
    → FinancialContext
    → (phone : List ℕ) → ℤ
    → List SimCandidate
    → List SimCandidate
viable_for_deposit now stale auth phone amount rows =
    filter (λ c. not (any (collides amount (last_four phone)) c.deposits))
      (filter (has_headroom amount) (
        filter (allowed_for_merchant auth.merchant_id)
          (live_candidates now stale auth.merchant_id true rows)))

-- `selectForDeposit`
unfoldable pub select_for_deposit :
    (now stale : ℕ)
    → FinancialContext
    → Option ℕ
    → (phone : List ℕ) → ℤ
    → SimCandidate
    → List SimCandidate
    → Result SimCandidate
select_for_deposit now stale auth sticky phone amount test_sim rows =
    in_environment auth.environment test_sim (
      first_or_refuse
        (sort (comes_first sticky) (viable_for_deposit now stale auth phone amount rows)))
