-- ===== src/Fleet/Selection.antt =====
-- apps/api/src/fleet/sim-selection.service.ts: `selectForDeposit` and `selectForWithdrawal`. A
-- candidate is the row that the query joins: a SIM with its device, the device's group, the group's
-- merchant policies and the SIM's active deposits. `test_sim` is what `ensureTestSim` upserts.
use Prim.Native.String.{String}
use pay.Shared.{
  ℕ, ◌*◌, Bool, true, false, not, ◌&&◌, ◌||◌, Option, none, some, List, [], ◌∷◌, ◌==◌,
  if◌then◌else◌, any, Result, ok, err, str_eq, no_physical_liquidity,
}
use pay.Shared.Int.{ℤ, pos, ◌+ℤ◌, ◌-ℤ◌, leb_ℤ, ltb_ℤ}
use pay.Domain.{FinancialContext, Environment, test, live}
use pay.Store.{
  MerchantGroupPolicy, SimWallet, SimStatus, is_active_sim, Device, DeviceGroup, is_online,
}
use pay.Withdrawals.{is_same_day}
use pay.Devices.{is_recent}
use pay.Shared.Sorting.{filter, take, sort}

-- an intent of status `awaiting_payment`, `late_grace` or `matching`
pub record ActiveDeposit : Type 0 where
  pub amount_minor : ℤ
  pub customer_phone : List ℕ

pub record SimCandidate : Type 0 where
  pub id : ℕ
  pub sim : SimWallet
  pub device : Device
  pub group : DeviceGroup
  pub merchants : List MerchantGroupPolicy
  pub deposits : List ActiveDeposit

abbrev pub is_own : ℕ → MerchantGroupPolicy → Bool
is_own merchant p = p.merchant_id == merchant

abbrev pub is_dedicated : MerchantGroupPolicy → Bool
is_dedicated p = p.dedicated

abbrev receives : SimStatus → Bool
receives SimStatus.active = true
receives SimStatus.payout_stale = true
receives _ = false

-- the state and the freshness that a SIM's role asks for
abbrev pub sim_is_live : (now stale : ℕ) → (deposits : Bool) → SimWallet → Bool
sim_is_live now stale true s = receives s.status
sim_is_live now stale false s =
    is_active_sim s.status && is_recent now (stale * 1000) s.last_balance_at

-- the `where` of `liveCandidates`
unfoldable pub is_live_candidate :
    (now stale merchant : ℕ) → (deposits : Bool) → SimCandidate → Bool
is_live_candidate now stale merchant deposits c =
    sim_is_live now stale deposits c.sim
    && ((is_online c.device.status
          && (is_recent now 90000 c.device.last_heartbeat_at
              && (c.device.last_permissions_ok && c.device.last_accessibility_ok)))
        && (not (str_eq c.group.code "TEST-SIMULATOR")
            && (any (is_own merchant) c.merchants || not (any is_dedicated c.merchants))))

abbrev is_virtual : Option String → Bool
is_virtual none = false
is_virtual (some serial) = str_eq serial "VIRTUAL-TEST-DEVICE"

-- `isLiveFleetIdentity`
unfoldable pub is_live_fleet_identity : String → Option String → Bool
is_live_fleet_identity code serial = not (str_eq code "TEST-SIMULATOR") && not (is_virtual serial)

-- `allowedForMerchant`
unfoldable pub allowed_for_merchant : ℕ → SimCandidate → Bool
allowed_for_merchant merchant c =
    if not (is_live_fleet_identity c.group.code c.device.hardware_serial)
    then false
    else if any (is_own merchant) c.merchants
    then true
    else not (any is_dedicated c.merchants)

unfoldable pub live_candidates :
    (now stale merchant : ℕ) → (deposits : Bool) → List SimCandidate → List SimCandidate
live_candidates now stale merchant deposits rows =
    take 2500 (filter (is_live_candidate now stale merchant deposits) rows)

-- `withinWithdrawalCapacity`
unfoldable pub within_withdrawal_capacity : (sent_today reserved required limit : ℤ) → Bool
within_withdrawal_capacity sent reserved required limit = leb_ℤ (sent +ℤ reserved +ℤ required) limit

abbrev pub sent_on : ℕ → SimWallet → ℤ
sent_on now s = if is_same_day now s.financial_day then s.sent_today_minor else pos 0

abbrev pub available_on : SimCandidate → ℤ
available_on c =
    c.sim.main_balance_minor -ℤ c.sim.reserved_balance_minor -ℤ c.group.safety_balance_minor

-- the second filter of `selectForWithdrawal`
unfoldable pub can_pay : (now : ℕ) → (required : ℤ) → SimCandidate → Bool
can_pay now required c =
    leb_ℤ required (available_on c)
    && within_withdrawal_capacity (sent_on now c.sim) c.sim.reserved_balance_minor required
        c.group.daily_limit_minor

abbrev pub richer : SimCandidate → SimCandidate → Bool
richer a b = ltb_ℤ b.sim.main_balance_minor a.sim.main_balance_minor

-- `viable` before its sort
unfoldable pub viable_for_withdrawal :
    (now stale : ℕ) → FinancialContext → ℤ → List SimCandidate → List SimCandidate
viable_for_withdrawal now stale auth required rows = filter (can_pay now required) (
    filter (allowed_for_merchant auth.merchant_id)
      (live_candidates now stale auth.merchant_id false rows))

abbrev pub first_or_refuse : List SimCandidate → Result SimCandidate
first_or_refuse [] = err no_physical_liquidity
first_or_refuse (c ∷ rest) = ok c

abbrev pub in_environment : Environment → SimCandidate → Result SimCandidate → Result SimCandidate
in_environment test test_sim chosen = ok test_sim
in_environment live test_sim chosen = chosen

-- `selectForWithdrawal`
unfoldable pub select_for_withdrawal :
    (now stale : ℕ) → FinancialContext → ℤ → SimCandidate → List SimCandidate → Result SimCandidate
select_for_withdrawal now stale auth required test_sim rows =
    in_environment auth.environment test_sim
      (first_or_refuse (sort richer (viable_for_withdrawal now stale auth required rows)))

unfoldable pub total_deposits : List ActiveDeposit → ℤ
total_deposits [] = pos 0
total_deposits (d ∷ ds) = d.amount_minor +ℤ total_deposits ds

-- `predictedDepositBalance`
unfoldable pub predicted_deposit_balance : ℤ → List ActiveDeposit → ℤ → ℤ
predicted_deposit_balance current deposits incoming = current +ℤ total_deposits deposits +ℤ incoming
