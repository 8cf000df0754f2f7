-- ===== src/Sweeps/Rules.antt =====
-- apps/api/src/sweeps/sweeps.service.ts: the rules, their approval, and the amount of a sweep.
use Prim.Native.String.{String}
use pay.Shared.{
  ℕ, ◌+◌, Bool, true, false, ◌||◌, none, some, if◌then◌else◌, find, modify, create, Result, ok,
  ◌>>=◌, ◌>>◌, require, or_throw, not_found, invalid_state,
}
use pay.Shared.Int.{ℤ, pos, ◌-ℤ◌, leb_ℤ, ltb_ℤ}
use pay.Domain.{FinancialContext, same_owner, NameDecision}
use pay.Store.{
  Db, SweepRule, SweepRuleStatus, SweepDestinationType, platform_treasury, merchant_owned,
  SweepExecutionStatus, TransferStatus, FinancialMode, merchant_debit, internal_move, AuditAction,
}
use pay.Withdrawals.{audited}
use pay.Sweeps.Checks.{
  assert_group_access, assert_destination_not_fleet, assert_approved_destination,
}

-- The fields of a rule's request; the amounts have gone through `amountToMinor`.
pub record SweepRuleInput : Type 0 where
  pub group_id : ℕ
  pub name : String
  pub destination_type : SweepDestinationType
  pub destination_phone : String
  pub destination_name : String
  pub high_water_minor : ℤ
  pub target_balance_minor : ℤ
  pub max_per_run_minor : ℤ
  pub minimum_interval_seconds : ℕ

abbrev pub is_approved : SweepRuleStatus → Bool
is_approved SweepRuleStatus.approved = true
is_approved _ = false

abbrev is_pending : SweepRuleStatus → Bool
is_pending SweepRuleStatus.pending = true
is_pending _ = false

abbrev is_rejected : SweepRuleStatus → Bool
is_rejected SweepRuleStatus.rejected = true
is_rejected _ = false

abbrev is_disabled : SweepRuleStatus → Bool
is_disabled SweepRuleStatus.disabled = true
is_disabled _ = false

abbrev set_rule : ℕ → (SweepRule → SweepRule) → Db → Db
set_rule id f db = record db { sweep_rules = modify id f db.sweep_rules }

abbrev reviewed :
    (now : ℕ)
    → SweepRuleStatus
    → (enabled : Bool) → (reviewer : ℕ) → (reason : String) → SweepRule
    → SweepRule
reviewed now status enabled reviewer reason r = record r {
  status = status;
  enabled = enabled;
  approved_by = some reviewer;
  approval_reason = some reason;
  approved_at = some now;
}

-- `comparePersonNames`, its decision
module _ (compare_person_names : String → String → NameDecision) where
  -- `approve`
  unfoldable pub approve_rule : (now id : ℕ) → (reason : String) → (reviewer : ℕ) → Db → Result Db
  approve_rule now id reason reviewer db = do
    rule ← or_throw (find id db.sweep_rules) not_found
    (if is_approved rule.status
        then ok db
        else (require (is_pending rule.status) invalid_state
            >> assert_destination_not_fleet rule.destination_phone db
            >> assert_approved_destination compare_person_names rule db
            >> ok (
                audited reviewer AuditAction.sweep_rule_approved id reason
                  (set_rule id (reviewed now SweepRuleStatus.approved true reviewer reason) db))))

-- `reject`
unfoldable pub reject_rule : (now id : ℕ) → (reason : String) → (reviewer : ℕ) → Db → Result Db
reject_rule now id reason reviewer db = do
  rule ← or_throw (find id db.sweep_rules) not_found
  (if is_rejected rule.status
      then ok db
      else (require (is_pending rule.status) invalid_state
          >> ok (
              audited reviewer AuditAction.sweep_rule_rejected id reason
                (set_rule id (reviewed now SweepRuleStatus.rejected false reviewer reason) db))))

-- what `create` and `update` take from the request
abbrev with_input : SweepRuleInput → (api_key : ℕ) → SweepRule → SweepRule
with_input input api_key r = record r {
  group_id = input.group_id;
  name = input.name;
  destination_type = input.destination_type;
  destination_phone = input.destination_phone;
  destination_name = input.destination_name;
  high_water_minor = input.high_water_minor;
  target_balance_minor = input.target_balance_minor;
  max_per_run_minor = input.max_per_run_minor;
  minimum_interval_seconds = input.minimum_interval_seconds;
  enabled = true;
  status = SweepRuleStatus.pending;
  proposed_by = api_key;
  approved_by = none;
  approval_reason = none;
  approved_at = none;
}

abbrev new_rule : FinancialContext → SweepRuleInput → (api_key : ℕ) → SweepRule
new_rule auth input api_key = record {
  owner = auth;
  group_id = input.group_id;
  name = input.name;
  status = SweepRuleStatus.pending;
  destination_type = input.destination_type;
  destination_phone = input.destination_phone;
  destination_name = input.destination_name;
  high_water_minor = input.high_water_minor;
  target_balance_minor = input.target_balance_minor;
  max_per_run_minor = input.max_per_run_minor;
  minimum_interval_seconds = input.minimum_interval_seconds;
  enabled = true;
  version = 1;
  proposed_by = api_key;
  approved_by = none;
  approval_reason = none;
  approved_at = none;
  last_executed_at = none;
}

-- what `create` runs inside the idempotency record
unfoldable pub create_rule : FinancialContext → (api_key : ℕ) → SweepRuleInput → Db → Result Db
create_rule auth api_key input db = do
  assert_group_access auth.merchant_id input.group_id db
  ok (
      audited api_key AuditAction.sweep_rule_created db.next_id "Submitted for platform approval"
        (record db {
          sweep_rules = create db.next_id (new_rule auth input api_key) db.sweep_rules;
          next_id = db.next_id + 1;
        }))

-- `requireMerchantRule`
unfoldable pub require_merchant_rule : FinancialContext → (id : ℕ) → Db → Result SweepRule
require_merchant_rule auth id db = do
  rule ← or_throw (find id db.sweep_rules) not_found
  require (same_owner auth rule.owner) not_found
  ok rule

-- what `update` runs inside the idempotency record; `reason` is the text with the replaced version
unfoldable pub update_rule :
    FinancialContext → (api_key id : ℕ) → (reason : String) → SweepRuleInput → Db → Result Db
update_rule auth api_key id reason input db = do
  rule ← require_merchant_rule auth id db
  assert_group_access auth.merchant_id input.group_id db
  ok (
      audited api_key AuditAction.sweep_rule_updated id reason
        (set_rule id (λ r. record (with_input input api_key r) { version = r.version + 1 }) db))

-- what `disable` runs inside the idempotency record
unfoldable pub disable_rule :
    FinancialContext → (api_key id : ℕ) → (reason : String) → Db → Result Db
disable_rule auth api_key id reason db = do
  rule ← require_merchant_rule auth id db
  ok (
      if is_disabled rule.status
      then db
      else audited api_key AuditAction.sweep_rule_disabled id reason
          (set_rule id (λ r. record r { enabled = false; status = SweepRuleStatus.disabled }) db))

pub record SweepAmountInput : Type 0 where
  pub balance_minor : ℤ
  pub reserved_minor : ℤ
  pub safety_minor : ℤ
  pub high_water_minor : ℤ
  pub target_minor : ℤ
  pub max_per_run_minor : ℤ

abbrev pub usable : SweepAmountInput → ℤ
usable i = i.balance_minor -ℤ i.reserved_minor -ℤ i.safety_minor

-- `calculateSweepAmount`
unfoldable pub calculate_sweep_amount : SweepAmountInput → ℤ
calculate_sweep_amount i =
    let excess = usable i -ℤ i.target_minor in
    if leb_ℤ (usable i) i.high_water_minor
    then pos 0
    else if leb_ℤ excess (pos 0) || leb_ℤ i.max_per_run_minor (pos 0)
    then pos 0
    else if ltb_ℤ excess i.max_per_run_minor
    then excess
    else i.max_per_run_minor

-- `financialModeForDestination`
unfoldable pub financial_mode_for_destination : SweepDestinationType → FinancialMode
financial_mode_for_destination merchant_owned = merchant_debit
financial_mode_for_destination platform_treasury = internal_move

-- `executionStatusFromTransfer`
unfoldable pub execution_status_from_transfer : TransferStatus → SweepExecutionStatus
execution_status_from_transfer TransferStatus.success = SweepExecutionStatus.success
execution_status_from_transfer TransferStatus.failed = SweepExecutionStatus.failed
execution_status_from_transfer TransferStatus.unknown = SweepExecutionStatus.unknown
execution_status_from_transfer TransferStatus.manual_review = SweepExecutionStatus.manual_review
execution_status_from_transfer TransferStatus.device_started = SweepExecutionStatus.device_started
execution_status_from_transfer TransferStatus.committed = SweepExecutionStatus.committed
execution_status_from_transfer TransferStatus.provider_pending =
    SweepExecutionStatus.provider_pending
execution_status_from_transfer _ = SweepExecutionStatus.queued
