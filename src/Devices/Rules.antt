-- ===== src/Devices/Rules.antt =====
-- apps/api/src/devices/device-jobs.service.ts: the transition table of a device job and the pure
-- decisions beside it.
use Prim.Native.String.{String}
use pay.Shared.{
  ℕ, ◌+◌, Bool, true, false, not, ◌&&◌, ◌||◌, Option, none, some, ◌==◌, if◌then◌else◌, is_some,
  str_eq,
}
use pay.Shared.Int.{ℤ, pos, ltb_ℤ, ◌-ℤ◌, pos_part}
use pay.Domain.{NameDecision, uncertain, mismatch}
use pay.Store.{DeviceJobState, DeviceStatus, SimStatus}

-- `allowedTransitions[from]?.includes(to)`
unfoldable pub allowed_transition : DeviceJobState → DeviceJobState → Bool
allowed_transition DeviceJobState.leased DeviceJobState.device_started = true
allowed_transition DeviceJobState.leased DeviceJobState.failed = true
allowed_transition DeviceJobState.leased DeviceJobState.cancelled = true
allowed_transition DeviceJobState.device_started DeviceJobState.committed = true
allowed_transition DeviceJobState.device_started DeviceJobState.failed = true
allowed_transition DeviceJobState.device_started DeviceJobState.cancelled = true
allowed_transition DeviceJobState.committed DeviceJobState.provider_pending = true
allowed_transition DeviceJobState.committed DeviceJobState.succeeded = true
allowed_transition DeviceJobState.committed DeviceJobState.failed = true
allowed_transition DeviceJobState.committed DeviceJobState.unknown = true
allowed_transition DeviceJobState.provider_pending DeviceJobState.succeeded = true
allowed_transition DeviceJobState.provider_pending DeviceJobState.failed = true
allowed_transition DeviceJobState.provider_pending DeviceJobState.unknown = true
allowed_transition _ _ = false

abbrev pub is_failed_or_cancelled : DeviceJobState → Bool
is_failed_or_cancelled DeviceJobState.failed = true
is_failed_or_cancelled DeviceJobState.cancelled = true
is_failed_or_cancelled _ = false

abbrev pub is_leased : DeviceJobState → Bool
is_leased DeviceJobState.leased = true
is_leased _ = false

abbrev pub is_succeeded : DeviceJobState → Bool
is_succeeded DeviceJobState.succeeded = true
is_succeeded _ = false

-- `financiallySafeReportState`
unfoldable pub financially_safe_report_state :
    (reported : DeviceJobState)
    → (committed_at : Option ℕ) → (prior : DeviceJobState) → (money_moving : Bool) → DeviceJobState
financially_safe_report_state reported committed_at prior money_moving =
    if is_succeeded reported
    then DeviceJobState.provider_pending
    else if money_moving
        && (is_failed_or_cancelled reported && (is_some committed_at || not (is_leased prior)))
    then DeviceJobState.unknown
    else reported

-- a number of a report, which may be negative, infinite or NaN
pub data ReportedTime : Type 0 where
  finite : ℤ → ReportedTime
  not_finite : ReportedTime

pub record BoundedTime : Type 0 where
  pub observed_at : ℕ
  pub clock_invalid : Bool

-- `boundedJobObservedAt`
unfoldable pub bounded_job_observed_at : ReportedTime → (received_at created_at : ℕ) → BoundedTime
bounded_job_observed_at not_finite received created = record {
  observed_at = received;
  clock_invalid = true;
}
bounded_job_observed_at (finite ms) received created =
    if ltb_ℤ ms (pos created -ℤ pos 60000) || ltb_ℤ (pos (received + 60000)) ms
    then record { observed_at = received; clock_invalid = true }
    else record { observed_at = pos_part ms; clock_invalid = false }

pub data ExpiryDisposition : Type 0 where
  release_precommit hold_unknown : ExpiryDisposition

abbrev pub may_have_committed : DeviceJobState → Bool
may_have_committed DeviceJobState.leased = true
may_have_committed DeviceJobState.device_started = true
may_have_committed DeviceJobState.committed = true
may_have_committed DeviceJobState.provider_pending = true
may_have_committed _ = false

-- `jobExpiryDisposition`
unfoldable pub job_expiry_disposition : DeviceJobState → Option ℕ → ExpiryDisposition
job_expiry_disposition state committed_at =
    if is_some committed_at || may_have_committed state then hold_unknown else release_precommit

-- `operatorControlledDeviceStatus`
unfoldable pub operator_controlled_device_status :
    (quarantine operator_online : Bool) → DeviceStatus
operator_controlled_device_status quarantine operator_online =
    if quarantine
    then DeviceStatus.quarantined
    else if operator_online
    then DeviceStatus.online
    else DeviceStatus.offline

-- `simRetainsQualification`
unfoldable pub sim_retains_qualification : SimStatus → Bool
sim_retains_qualification SimStatus.active = true
sim_retains_qualification SimStatus.payout_stale = true
sim_retains_qualification _ = false

-- `shouldReleaseDeviceLockAfterReport`
unfoldable pub should_release_device_lock : DeviceJobState → Bool
should_release_device_lock DeviceJobState.failed = true
should_release_device_lock DeviceJobState.unknown = true
should_release_device_lock DeviceJobState.cancelled = true
should_release_device_lock _ = false

pub data PrecommitNameDisposition : Type 0 where
  no_disposition : PrecommitNameDisposition
  name_uncertain name_mismatch : (expected observed : String) → PrecommitNameDisposition

abbrev is_started : DeviceJobState → Bool
is_started DeviceJobState.device_started = true
is_started _ = false

abbrev text_or_empty : Option String → String
text_or_empty none = ""
text_or_empty (some s) = s

-- the last two tests of `classifyPrecommitNameDisposition`, on the decision of our own comparison
abbrev pub agree_on_name :
    DeviceJobState
    → (error_code : String) → NameDecision
    → (expected observed : String) → PrecommitNameDisposition
agree_on_name DeviceJobState.cancelled code uncertain expected observed =
    if str_eq code "RequestNameReview" then name_uncertain expected observed else no_disposition
agree_on_name DeviceJobState.failed code mismatch expected observed =
    if str_eq code "ReceiverMismatch" then name_mismatch expected observed else no_disposition
agree_on_name _ _ _ _ _ = no_disposition

-- What the job and the report say about the receiver's name.
pub record NameReport : Type 0 where
  pub prior_state : DeviceJobState
  pub committed_at : Option ℕ
  pub reported_state : DeviceJobState
  pub error_code : String
  pub stored_expected_name : Option String
  pub reported_expected_name : Option String
  pub provider_receiver_name : Option String

-- The comparison of the name normalizer, and the text's `trim`.
module _ (compare_person_names : String → String → NameDecision) (trim : String → String) where
  -- `classifyPrecommitNameDisposition`
  unfoldable pub classify_precommit_name : NameReport → PrecommitNameDisposition
  classify_precommit_name r =
      let expected = text_or_empty r.reported_expected_name in
      let observed = trim (text_or_empty r.provider_receiver_name) in
      let stored = text_or_empty r.stored_expected_name in
      if not (is_started r.prior_state) || (is_some r.committed_at || str_eq stored "")
      then no_disposition
      else if not (str_eq expected stored) || str_eq observed ""
      then no_disposition
      else agree_on_name r.reported_state r.error_code (compare_person_names stored observed)
          expected observed

pub data InboxDisposition : Type 0 where
  process duplicate conflict : InboxDisposition

-- `jobStatusInboxDisposition`
unfoldable pub job_status_inbox_disposition : Option ℕ → ℕ → InboxDisposition
job_status_inbox_disposition none incoming = process
job_status_inbox_disposition (some existing) incoming =
    if existing == incoming then duplicate else conflict
