-- ===== src/Sweeps/Checks.antt =====
-- apps/api/src/sweeps/sweeps.service.ts: what a rule must satisfy at its approval, and at every
-- execution.
use Prim.Native.String.{String}
use pay.Shared.{
  ℕ, Bool, true, false, not, ◌&&◌, ◌||◌, Option, none, some, ◌==◌, str_eq, Table, find, any, Result,
  ◌>>=◌, ◌>>◌, require, or_throw, not_found, forbidden, invalid_state,
}
use pay.Shared.Sorting.{filter}
use pay.Domain.{same_environment, NameDecision}
use pay.Store.{
  Db, SweepRule, SweepDestinationType, platform_treasury, merchant_owned, TreasuryWallet,
  TreasuryWalletStatus, MerchantGroupPolicy,
}
use pay.Withdrawals.{find_by}
use pay.Fleet.Selection.{is_own, is_dedicated}
use pay.Sms.{is_matching}

-- the policies of a group: one of the merchant's own, or none that keeps it for another
unfoldable pub is_open_to : (merchant group : ℕ) → Table MerchantGroupPolicy → Bool
is_open_to merchant group policies =
    let of_group = filter (λ x. x.0 == group) policies in
    any (λ x. is_own merchant x.1) of_group || not (any (λ x. is_dedicated x.1) of_group)

-- `assertGroupAccess`
unfoldable pub assert_group_access : (merchant group : ℕ) → Db → Result (Unit {0})
assert_group_access merchant group db = do
  g ← or_throw (find group db.groups) not_found
  require (not (str_eq g.code "TEST-SIMULATOR")) forbidden
  require (is_open_to merchant group db.group_policies) forbidden

-- `assertDestinationNotFleet`
unfoldable pub assert_destination_not_fleet : (phone : String) → Db → Result (Unit {0})
assert_destination_not_fleet phone db =
    require (not (any (λ x. str_eq phone x.1.phone_number) db.sims)) invalid_state

abbrev is_active_wallet : TreasuryWalletStatus → Bool
is_active_wallet TreasuryWalletStatus.active = true
is_active_wallet _ = false

-- the platform's wallets have no merchant
abbrev pub belongs : SweepDestinationType → (merchant : ℕ) → Option ℕ → Bool
belongs platform_treasury merchant none = true
belongs platform_treasury merchant (some m) = false
belongs merchant_owned merchant none = false
belongs merchant_owned merchant (some m) = m == merchant

abbrev pub is_wallet_of : SweepRule → TreasuryWallet → Bool
is_wallet_of rule w =
    same_environment rule.owner.environment w.environment
    && str_eq rule.destination_phone w.phone_number

-- `comparePersonNames`, its decision
module _ (compare_person_names : String → String → NameDecision) where
  abbrev pub accepts : SweepRule → Option (ℕ × TreasuryWallet) → Bool
  accepts rule none = false
  accepts rule (some (_, w)) =
      is_active_wallet w.status
      && (belongs rule.destination_type rule.owner.merchant_id w.merchant_id
          && is_matching (compare_person_names w.account_name rule.destination_name))

  -- `assertApprovedDestination`
  unfoldable pub assert_approved_destination : SweepRule → Db → Result (Unit {0})
  assert_approved_destination rule db =
      require (accepts rule (find_by (is_wallet_of rule) db.treasury)) invalid_state
