-- ===== src/Domain.antt =====
-- The data that several services share: the runtime environment and the owner of a ledger
-- (apps/api/prisma/schema.prisma, `FinancialContext` of the ledger service), and reconciliation
-- cases. Ids are UUIDs that the code only compares, so they are numbers.
use Prim.Native.String.{String}
use pay.Shared.{ℕ, Option, List, ◌≡◌, ◌↔◌, Bool, true, false, ◌&&◌, arith, ◌==◌}
use pay.Shared.Int.{ℤ}

pub data Environment : Type 0 where
  test live : Environment

abbrev pub same_environment : Environment → Environment → Bool
same_environment test test = true
same_environment live live = true
same_environment test live = false
same_environment live test = false

pub record FinancialContext : Type 0 where
  pub merchant_id : ℕ
  pub environment : Environment

unfoldable pub same_owner : FinancialContext → FinancialContext → Bool
same_owner a b = (a.merchant_id == b.merchant_id) && same_environment a.environment b.environment

pub same_environment_iff : (a b : Environment) → (same_environment a b ≡ true) ↔ (a ≡ b)
same_environment_iff test test = ground arith
same_environment_iff test live = ground arith
same_environment_iff live test = ground arith
same_environment_iff live live = ground arith

pub same_owner_iff : (a b : FinancialContext) → (same_owner a b ≡ true) ↔ (a ≡ b)
unfolding same_owner
same_owner_iff a b = ground (arith, same_environment_iff a.environment b.environment)

pub data CaseType : Type 0 where
  provider_fee_overrun unknown_payout receiver_name_review receiver_name_mismatch : CaseType
  precommit_cancelled : CaseType
  ambiguous_deposit unmatched_deposit ambiguous_payout_sms unmatched_payout_sms : CaseType
  late_success_after_manual_failure unknown_sms device_clock_invalid_balance_sms : CaseType
  ambiguous_balance_sms unmatched_balance_sms stale_balance_sms : CaseType

pub data CaseStatus : Type 0 where
  opened proposed resolved rejected : CaseStatus

-- `NameMatchDecision` of the name normalizer.
pub data NameDecision : Type 0 where
  matching uncertain mismatch : NameDecision

-- What the evidence of a case holds that the code reads again or that a property names.
pub data Evidence : Type 0 where
  fees : (reserved actual overrun : ℤ) → Evidence
  job : (job_id : ℕ) → Evidence
  names : (expected observed : String) → NameDecision → (job_id : ℕ) → Evidence
  simulator : Evidence
  -- the receipt of a late success, the candidates of a match, the sender of an unknown message
  receipt : (receipt_id : ℕ) → Evidence
  candidates : List ℕ → Evidence
  sender : String → Evidence
  clock : (device_id : ℕ) → Evidence
  -- an outflow that no single transfer explains
  outflow : (candidates matches : List ℕ) → (total previous resulting : ℤ) → Evidence

pub record ReconciliationCase : Type 0 where
  pub merchant_id : Option ℕ
  pub type : CaseType
  pub status : CaseStatus
  pub reference_id : ℕ
  pub evidence : Evidence
