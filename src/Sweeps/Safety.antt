-- ===== src/Sweeps/Safety.antt =====
-- apps/api/src/sweeps/sweeps.service.ts, `executeCandidate`: what has been checked when a sweep goes
-- out.
use Prim.Native.String.{String}
use pay.Shared.{
  ℕ, ◌≡◌, refl, ap, subst, Bool, true, false, not, ◌&&◌, inl, inr, Option, none, some, str_eq,
  if-cases, &&-both, find, any, Result, ok, ◌>>◌, >>=-eq-ok, require, require-eq-ok, or_throw,
  or_throw-eq-ok, ok_injective, not_found, forbidden, invalid_state, record_not_found,
}
use pay.Shared.Int.{pos, leb_ℤ}
use pay.Domain.{NameDecision}
use pay.Store.{MerchantConfig, Db, SweepRule, SweepKey, SimWallet, DeviceGroup}
use pay.Withdrawals.{find_by}
use pay.Deposits.Intents.{merchant_config, config_or_default, with_config}
use pay.Sweeps.Checks.{
  assert_group_access, assert_destination_not_fleet, assert_approved_destination, is_open_to,
  accepts, is_wallet_of,
}
use pay.Sweeps.Execution.{key_of, is_executable, sweep_amount, is_recent_execution}
use pay.Sweeps.Runs.{is_sweepable, sweep_sim, sweep_candidate, execute_found, execute_candidate}
use pay.Sweeps.Sent.{IsSent, sweep_sim-IsSent}
use pay.Sweeps.Bounds.{IsWithinLimits, sweep_amount-IsWithinLimits}

not-true : (b : Bool) → not b ≡ true → b ≡ false
not-true true h = cc
not-true false h = refl

assert_group_access-eq-ok :
    (merchant group : ℕ) (db : Db) {u : Unit {0}}
    → assert_group_access merchant group db ≡ ok u
    → is_open_to merchant group db.group_policies ≡ true
unfolding assert_group_access
assert_group_access-eq-ok merchant group db h =
    let (g, found, rest) = >>=-eq-ok (or_throw (find group db.groups) not_found) _ h in
    let (_, real, access) =
      >>=-eq-ok (require (not (str_eq g.code "TEST-SIMULATOR")) forbidden)
        (λ _. require (is_open_to merchant group db.group_policies) forbidden) rest in
    require-eq-ok _ forbidden access

config-transfers :
    (m : ℕ) (o : Option MerchantConfig) (db : Db) → (with_config m o db).transfers ≡ db.transfers
config-transfers m none db = refl
config-transfers m (some c) db = refl

-- a transaction that ends with an execution does not end without one
pub none-is-some :
    {A : Type 0} {id : ℕ} {db db' : Db}
    → ◌≡◌ {A = Result (Option ℕ × Db)} (ok (none, db)) (ok (some id, db'))
    → A
none-is-some {A} {id} h = let never : none ≡ some id = ap (λ r. r.0) (ok_injective h) in cc

module _ (compare_person_names : String → String → NameDecision) (now stale : ℕ)
    (reference : SweepKey → String) (actor : ℕ) (reason : String) (rule_id sim_id id : ℕ)
    (db db' : Db) where
  -- the amount that goes out keeps the limits, and this very amount is sent
  abbrev pub IsOut : SweepRule → DeviceGroup → SimWallet → Type 0
  IsOut rule g s =
      let config = (merchant_config rule.owner.merchant_id db).0 in
      let amount = sweep_amount now rule g config sim_id s db.transfers in
      IsWithinLimits now rule g config sim_id s db.transfers amount
      × IsSent rule (key_of now rule_id sim_id rule) amount id db db'

  sim-IsOut :
      (rule : SweepRule) (g : DeviceGroup) (s : SimWallet)
      → sweep_sim compare_person_names now stale reference actor reason rule_id sim_id rule g s db
        ≡ ok (some id, db')
      → is_executable rule ≡ true
      → find sim_id db.sims ≡ some s
      → IsOut rule g s
  unfolding sweep_sim merchant_config sweep_amount
  sim-IsOut rule g s h executable wallet =
      let row = find rule.owner.merchant_id db.merchant_configs in
      let config = config_or_default row in
      let db1 = with_config rule.owner.merchant_id row db in
      let amount = sweep_amount now rule g config sim_id s db1.transfers in
      elim (if-cases (leb_ℤ amount (pos 0)) (ok (none, db1)) _ _ h) [
        | inl (_, nothing) ↦ none-is-some nothing
        | inr (left, went) ↦
            subst
              (λ t.
                IsWithinLimits now rule g config sim_id s t
                  (sweep_amount now rule g config sim_id s t)
                × IsSent rule (key_of now rule_id sim_id rule)
                    (sweep_amount now rule g config sim_id s t) id db db')
              (config-transfers rule.owner.merchant_id row db)
              (
                sweep_amount-IsWithinLimits now rule g config sim_id s db1.transfers _ refl left,
                sweep_sim-IsSent now reference actor reason (key_of now rule_id sim_id rule) rule
                    config amount id rule.owner.merchant_id row db db' s executable wallet left
                    went,
              )
      ]

  -- what the SIM was found to be
  abbrev pub IsReadySim : SweepRule → SimWallet → Type 0
  IsReadySim rule s =
      (g : DeviceGroup) × (find rule.group_id db.groups ≡ some g)
      × (is_sweepable now stale rule s (find s.device_id db.devices) ≡ true)
      × (any (λ x. is_recent_execution now rule_id sim_id rule.minimum_interval_seconds x.1)
            db.sweeps
          ≡ false)
      × IsOut rule g s

  candidate-IsReadySim :
      (rule : SweepRule) (o : Option SimWallet)
      → sweep_candidate compare_person_names now stale reference actor reason rule_id sim_id rule o
          db
        ≡ ok (some id, db')
      → is_executable rule ≡ true
      → find sim_id db.sims ≡ o
      → (s : SimWallet) × (o ≡ some s) × IsReadySim rule s
  unfolding sweep_candidate
  candidate-IsReadySim rule none h executable at = none-is-some h
  candidate-IsReadySim rule (some s) h executable at =
      let recent =
        any (λ x. is_recent_execution now rule_id sim_id rule.minimum_interval_seconds x.1)
          db.sweeps in
      let (g, found, rest) =
        >>=-eq-ok (or_throw (find rule.group_id db.groups) record_not_found) _ h in
      elim (if-cases (is_sweepable now stale rule s (find s.device_id db.devices) && not recent)
        (sweep_sim compare_person_names now stale reference actor reason rule_id sim_id rule g s db)
        (ok (none, db)) _ rest) [
          | inl (ready, swept) ↦
              let both = &&-both _ _ ready in
              (
                s,
                refl,
                (
                  g,
                  or_throw-eq-ok _ _ found,
                  both.0,
                  not-true _ both.1,
                  sim-IsOut rule g s swept executable at,
                ),
              )
          | inr (_, nothing) ↦ none-is-some nothing
        ]

  -- what the rule was found to be
  abbrev pub IsAllowed : SweepRule → Type 0
  IsAllowed rule =
      (is_executable rule ≡ true)
      × (is_open_to rule.owner.merchant_id rule.group_id db.group_policies ≡ true)
      × (any (λ x. str_eq rule.destination_phone x.1.phone_number) db.sims ≡ false)
      × (accepts compare_person_names rule (find_by (is_wallet_of rule) db.treasury) ≡ true)

  found-IsAllowed :
      (o : Option SweepRule)
      → execute_found compare_person_names now stale reference actor reason rule_id sim_id o db
        ≡ ok (some id, db')
      → (rule : SweepRule) × (o ≡ some rule)
        × IsAllowed rule
        × ((s : SimWallet) × (find sim_id db.sims ≡ some s) × IsReadySim rule s)
  unfolding execute_found assert_destination_not_fleet assert_approved_destination
  found-IsAllowed none h = none-is-some h
  found-IsAllowed (some rule) h =
      let access = assert_group_access rule.owner.merchant_id rule.group_id db in
      let elsewhere = assert_destination_not_fleet rule.destination_phone db in
      let approved = assert_approved_destination compare_person_names rule db in
      elim (if-cases (is_executable rule) _ (ok (none, db)) _ h) [
        | inl (executable, went) ↦
            let (_, checked, rest) =
              >>=-eq-ok (access >> elsewhere >> approved)
                (λ _.
                  sweep_candidate compare_person_names now stale reference actor reason rule_id
                    sim_id rule (find sim_id db.sims) db)
                went in
            let (_, placed, treasury) = >>=-eq-ok (access >> elsewhere) (λ _. approved) checked in
            let (_, opened, outside) = >>=-eq-ok access (λ _. elsewhere) placed in
            (
              rule,
              refl,
              (
                executable,
                assert_group_access-eq-ok rule.owner.merchant_id rule.group_id db opened,
                not-true _ (require-eq-ok _ invalid_state outside),
                require-eq-ok _ invalid_state treasury,
              ),
              candidate-IsReadySim rule (find sim_id db.sims) rest executable refl,
            )
        | inr (_, nothing) ↦ none-is-some nothing
      ]

  -- An execution that is reported is that of an approved, enabled, live rule whose group is open to
  -- the merchant, to an active wallet that was approved for the very destination and is no SIM of the
  -- fleet. The SIM is in service with a fresh balance and has no unfinished or recent sweep by the
  -- rule, and the amount keeps the daily limit, the cap of a run, and the target with the reserves.
  -- Either the execution was there before under the key of this rule, SIM and time, and no money is
  -- moved, or a new transfer waits in the queue: it pays this very amount from this SIM to the
  -- destination of the rule, for its owner, and the execution carries the amount and the transfer.
  pub execute_candidate-IsAllowed :
      execute_candidate compare_person_names now stale reference actor reason rule_id sim_id db
        ≡ ok (some id, db')
      → (rule : SweepRule) × (find rule_id db.sweep_rules ≡ some rule)
        × IsAllowed rule
        × ((s : SimWallet) × (find sim_id db.sims ≡ some s) × IsReadySim rule s)
  unfolding execute_candidate
  execute_candidate-IsAllowed h = found-IsAllowed (find rule_id db.sweep_rules) h
