-- ===== src/Fleet/Choice.antt =====
-- apps/api/src/fleet/sim-selection.service.ts: what a chosen SIM promises.
use pay.Shared.{
  leb→le, Bool-cases, Option, ℕ, ◌≡◌, refl, sym, ap, subst, Bool, true, false, not, List, [], ◌∷◌,
  All, arith, ok, ok_injective, inl, inr, any,
}
use pay.Shared.Int.{ℤ, ◌+ℤ◌, ◌-ℤ◌, ◌≤ℤ◌}
use pay.Domain.{FinancialContext, live}
use pay.Shared.Sorting.{filter, sort, All-filter, All-sort, sort-All, LeadsRest, LeadsRest-sort}
use pay.Fleet.Selection.{
  SimCandidate, can_pay, within_withdrawal_capacity, sent_on, available_on, richer,
  predicted_deposit_balance, viable_for_withdrawal, first_or_refuse, in_environment,
  select_for_withdrawal,
}
use pay.Fleet.Receiving.{
  has_headroom, collides, last_four, comes_first, viable_for_deposit, select_for_deposit,
}

-- A chosen candidate has what the choice promises.
AtMost : SimCandidate → SimCandidate → Type 0
AtMost a b = a.sim.main_balance_minor ≤ℤ b.sim.main_balance_minor

AtMost-refl : (a : SimCandidate) → AtMost a a
unfolding AtMost
AtMost-refl a = omega arith

AtMost-trans : (a b c : SimCandidate) → AtMost a b → AtMost b c → AtMost a c
unfolding AtMost
AtMost-trans a b c h k = omega (arith, h, k)

ahead : (y x : SimCandidate) → richer y x ≡ true → AtMost x y
unfolding AtMost
ahead y x h = ground arith

behind : (y x : SimCandidate) → richer y x ≡ false → AtMost y x
unfolding AtMost
behind y x h = ground arith

can_pay-IsFunded :
    (now : ℕ) (required : ℤ) (c : SimCandidate)
    → can_pay now required c ≡ true
    → (required ≤ℤ available_on c)
      × (sent_on now c.sim +ℤ c.sim.reserved_balance_minor +ℤ required ≤ℤ c.group.daily_limit_minor)
unfolding can_pay within_withdrawal_capacity
can_pay-IsFunded now required c h = ground arith

first-chosen :
    (xs : List SimCandidate) (c : SimCandidate)
    → first_or_refuse xs ≡ ok c
    → (rest : List SimCandidate) × (xs ≡ c ∷ rest)
first-chosen [] c h = cc
first-chosen (x ∷ rest) c h = (rest, ap (λ y. y ∷ rest) (ok_injective h))

-- The SIM that a live payout gets can fund it above the safety balance, what its SIM sends that day
-- stays within the group's limit with all its reservations counted, and no viable SIM has a higher
-- balance.
pub select_for_withdrawal-IsFunded :
    (now stale : ℕ) (auth : FinancialContext) (required : ℤ) (test_sim c : SimCandidate)
    (rows : List SimCandidate)
    → auth.environment ≡ live
    → select_for_withdrawal now stale auth required test_sim rows ≡ ok c
    → (required ≤ℤ available_on c)
      × (sent_on now c.sim +ℤ c.sim.reserved_balance_minor +ℤ required ≤ℤ c.group.daily_limit_minor)
      × All
          (λ d. d.sim.main_balance_minor ≤ℤ c.sim.main_balance_minor)
          (viable_for_withdrawal now stale auth required rows)
unfolding select_for_withdrawal viable_for_withdrawal AtMost LeadsRest
select_for_withdrawal-IsFunded now stale auth required test_sim c rows is_live h =
    let viable = viable_for_withdrawal now stale auth required rows in
    let chosen =
      subst (λ e. in_environment e test_sim (first_or_refuse (sort richer viable)) ≡ ok c) is_live
        h in
    let (rest, e) = first-chosen (sort richer viable) c chosen in
    let (paid, _) = subst (All (λ x. can_pay now required x ≡ true)) e (
      All-sort (λ x. can_pay now required x ≡ true) richer viable
        (All-filter (can_pay now required) _)) in
    let leads =
      subst (LeadsRest richer AtMost AtMost-trans ahead behind) e
        (LeadsRest-sort richer AtMost AtMost-trans ahead behind viable) in
    let (funded, within) = can_pay-IsFunded now required c paid in
    (
      funded,
      within,
      sort-All (λ x. AtMost x c) richer viable
          (subst (All (λ x. AtMost x c)) (sym e) (AtMost-refl c, leads)),
    )

not-true : (b : Bool) → not b ≡ true → b ≡ false
not-true false h = refl
not-true true h = cc

filter-All :
    (Q : SimCandidate → Type 0) (p : SimCandidate → Bool) (xs : List SimCandidate)
    → All Q xs
    → All Q (filter p xs)
unfolding filter
filter-All Q p [] qs = tt
filter-All Q p (x ∷ xs) (q, qs) = elim (Bool-cases (p x)) [
  | inl e ↦ rw e (q, filter-All Q p xs qs)
  | inr e ↦ rw e (filter-All Q p xs qs)
]

-- The SIM that a live deposit gets stays below its ceiling less the safety headroom even when every
-- active deposit on it arrives, and none of these has both the very amount of the new one and the
-- last four digits of its phone. Nothing is said of amounts that differ within a tolerance.
pub select_for_deposit-IsUnambiguous :
    (now stale : ℕ) (auth : FinancialContext) (sticky : Option ℕ) (phone : List ℕ) (amount : ℤ)
    (test_sim c : SimCandidate) (rows : List SimCandidate)
    → auth.environment ≡ live
    → select_for_deposit now stale auth sticky phone amount test_sim rows ≡ ok c
    → (predicted_deposit_balance c.sim.main_balance_minor c.deposits amount
        ≤ℤ c.group.wallet_ceiling_minor -ℤ c.group.safety_headroom_minor)
      × (any (collides amount (last_four phone)) c.deposits ≡ false)
unfolding select_for_deposit viable_for_deposit has_headroom
select_for_deposit-IsUnambiguous now stale auth sticky phone amount test_sim c rows is_live h =
    let viable = viable_for_deposit now stale auth phone amount rows in
    let chosen =
      subst
        (λ e. in_environment e test_sim (first_or_refuse (sort (comes_first sticky) viable)) ≡ ok c)
        is_live h in
    let (rest, e) = first-chosen (sort (comes_first sticky) viable) c chosen in
    let (fits, _) = subst (All (λ x. has_headroom amount x ≡ true)) e (
      All-sort (λ x. has_headroom amount x ≡ true) (comes_first sticky) viable
        (filter-All (λ x. has_headroom amount x ≡ true) _ _
          (All-filter (has_headroom amount) _))) in
    let (alone, _) =
      subst (All (λ x. not (any (collides amount (last_four phone)) x.deposits) ≡ true)) e (
        All-sort (λ x. not (any (collides amount (last_four phone)) x.deposits) ≡ true)
          (comes_first sticky) viable
          (All-filter (λ x. not (any (collides amount (last_four phone)) x.deposits)) _)) in
    (leb→le _ _ fits, not-true _ alone)
