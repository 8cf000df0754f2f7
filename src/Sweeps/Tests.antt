-- ===== src/Sweeps/Tests.antt =====
-- Sweeps at a concrete fleet.
use Prim.Native.String.{String}
use pay.Shared.{
  ℕ, ◌≡◌, refl, false, true, none, some, Option, [], ◌∷◌, Result, ok, err, find, modify, create,
  any, invalid_state, str_eq, if◌then◌else◌,
}
use pay.Shared.Int.{pos, ◌+ℤ◌, ◌-ℤ◌}
use pay.Shared.Sorting.{filter, take, sort, insert}
use pay.Domain.{live, same_owner, NameDecision}
use pay.Store.{
  Db, SweepRule, SweepRuleStatus, SweepKey, TreasuryWallet, TreasuryWalletStatus, platform_treasury,
  TransferStatus, DeviceJobState, MerchantConfig, SimWallet,
}
use pay.Samples.{shop, after, db_in, funded_books}
use pay.Sweeps.Checks.{
  is_open_to, assert_group_access, assert_destination_not_fleet, assert_approved_destination,
}
use pay.Sweeps.Rules.{
  calculate_sweep_amount, approve_rule, financial_mode_for_destination,
  execution_status_from_transfer,
}
use pay.Sweeps.Execution.{
  is_executable, pending_outflow, sweep_amount, is_recent_execution, same_key, dispatch_sweep,
  dispatch_once,
}
use pay.Sweeps.Runs.{
  is_sweepable, sweep_sim, sweep_candidate, execute_found, execute_candidate, is_candidate,
  candidates_of, after_candidate, execute_each, first_error, execute_rule_found, execute_rule,
}
use pay.Sweeps.Bounds.{IsMeasured, calculate_sweep_amount-IsMeasured}
use pay.Sweeps.Safety.{IsAllowed, IsReadySim, execute_candidate-IsAllowed}
use pay.Sweeps.Failure.{IsUntouched, execute_rule-fails_clean}
use pay.Deposits.Intents.{merchant_config}
use pay.Contracts.{
  digits, length, zeros, pad_start, but_last_two, last_two, minor_to_amount, is_fraction, is_tail,
  is_amount_text, without_point, value, amount_to_minor,
}
use pay.Withdrawals.{
  queue_transfer, dispatch, enqueue_job, reserve_funds, find_by, addis_financial_day,
}
use pay.Ledger.{
  credit_deposit, reserve_internal_move_fee, reserve_withdrawal, post, post_entries, post_entry,
  ensure_accounts, balance, available_minor, same_account,
}

abbrev rule : SweepRule
rule = record {
  owner = shop;
  group_id = 4;
  name = "surplus";
  status = SweepRuleStatus.pending;
  destination_type = platform_treasury;
  destination_phone = "+251922000000";
  destination_name = "Platform";
  high_water_minor = pos 50000;
  target_balance_minor = pos 30000;
  max_per_run_minor = pos 40000;
  minimum_interval_seconds = 900;
  enabled = true;
  version = 1;
  proposed_by = 2;
  approved_by = none;
  approval_reason = none;
  approved_at = none;
  last_executed_at = none;
}

abbrev wallet : TreasuryWallet
wallet = record {
  merchant_id = none;
  account_name = "Platform";
  status = TreasuryWalletStatus.active;
  environment = live;
  phone_number = "+251922000000";
  predicted_balance_minor = pos 0;
}

-- usable 83800 of 90000: the target stays
calculated :
    calculate_sweep_amount (record {
      balance_minor = pos 90000;
      reserved_minor = pos 5200;
      safety_minor = pos 1000;
      high_water_minor = pos 50000;
      target_minor = pos 30000;
      max_per_run_minor = pos 90000;
    })
    ≡ pos 53800
unfolding calculate_sweep_amount ◌-ℤ◌
calculated = refl

calculate_sweep_amount-IsMeasured_example :
    IsMeasured (pos 83800) (pos 30000) (pos 40000) (pos 50000) (pos 40000)
unfolding calculate_sweep_amount ◌-ℤ◌
calculate_sweep_amount-IsMeasured_example = calculate_sweep_amount-IsMeasured (record {
  balance_minor = pos 90000;
  reserved_minor = pos 5200;
  safety_minor = pos 1000;
  high_water_minor = pos 50000;
  target_minor = pos 30000;
  max_per_run_minor = pos 40000;
})

abbrev same_name : String → String → NameDecision
same_name a b = if str_eq a b then NameDecision.matching else NameDecision.mismatch

abbrev key_text : SweepKey → String
key_text key = "SWP"

abbrev config : MerchantConfig
config = record {
  allow_alternate_withdrawal_phone = false;
  deposit_minimum_minor = pos 1000;
  deposit_maximum_minor = pos 500000000;
  wrong_amount_tolerance_minor = pos 0;
  deposit_countdown_seconds = 600;
  deposit_late_grace_seconds = 1800;
  gateway_fee_flat_minor = pos 20;
  reserve_provider_fee_minor = pos 100;
}

abbrev pending_db : Db
pending_db = record (db_in TransferStatus.accepted DeviceJobState.queued) {
  books = funded_books;
  transfers = [];
  merchant_configs = (7, config) ∷ [];
  sweep_rules = (70, rule) ∷ [];
  treasury = (71, wallet) ∷ [];
  next_id = 90;
}

sweeps : Unit {0}
unfolding approve_rule execute_candidate execute_found sweep_candidate sweep_sim is_sweepable
    is_executable is_open_to assert_group_access assert_destination_not_fleet
    assert_approved_destination is_candidate candidates_of after_candidate execute_each first_error
    execute_rule_found execute_rule pending_outflow sweep_amount is_recent_execution same_key
    dispatch_sweep dispatch_once calculate_sweep_amount merchant_config digits length zeros
    pad_start but_last_two last_two minor_to_amount is_fraction is_tail is_amount_text without_point
    value amount_to_minor queue_transfer dispatch enqueue_job reserve_funds find_by
    addis_financial_day credit_deposit reserve_internal_move_fee reserve_withdrawal post
    post_entries post_entry ensure_accounts balance available_minor same_account same_owner filter
    take sort insert find modify create any financial_mode_for_destination
    execution_status_from_transfer ◌+ℤ◌ ◌-ℤ◌
sweeps = tt

abbrev approved_db : Db
approved_db = after (approve_rule same_name 100000 70 "checked" 3 pending_db)

abbrev result : Result (Option ℕ × Db)
result = execute_candidate same_name 110000 600 key_text 0 "surplus" 70 6 approved_db

abbrev swept_db : Db
swept_db = elim result [ ok r ↦ r.1 | err e ↦ approved_db ]

-- 40000 of the surplus go out, once
swept :
    (result ≡ ok (some 93, swept_db))
    × (execute_candidate same_name 120000 600 key_text 0 "surplus" 70 6 swept_db
        ≡ ok (none, swept_db))
unfolding sweeps
swept = (refl, refl)

execute_candidate-IsAllowed_example :
    (r : SweepRule) × (find 70 approved_db.sweep_rules ≡ some r)
    × IsAllowed same_name 110000 600 key_text 0 "surplus" 70 6 93 approved_db swept_db r
    × ((s : SimWallet) × (find 6 approved_db.sims ≡ some s)
        × IsReadySim same_name 110000 600 key_text 0 "surplus" 70 6 93 approved_db swept_db r s)
unfolding sweeps
execute_candidate-IsAllowed_example =
    execute_candidate-IsAllowed same_name 110000 600 key_text 0 "surplus" 70 6 93 approved_db
      swept_db refl

-- a rule that was not approved
execute_rule-fails_clean_example : IsUntouched pending_db pending_db
unfolding sweeps
execute_rule-fails_clean_example =
    execute_rule-fails_clean same_name 110000 600 key_text 3 "now" 70 pending_db pending_db
      invalid_state refl
