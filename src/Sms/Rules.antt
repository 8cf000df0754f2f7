-- ===== src/Sms/Rules.antt =====
-- apps/api/src/sms/sms-ingestion.service.ts and apps/api/src/parsers/sms-parser.ts: the message as
-- the parser hands it on, and the pure rules of the ingestion.
use Prim.Native.String.{String}
use pay.Shared.{
  ℕ, ◌+◌, Bool, true, false, ◌&&◌, ◌||◌, Option, none, some, List, [], ◌∷◌, ◌==◌, ltb, leb,
  if◌then◌else◌, ◌or_default◌,
}
use pay.Shared.Int.{ℤ, ◌+ℤ◌, ◌-ℤ◌}
use pay.Store.{
  SimStatus, SimWallet, BalanceSource, transaction_sms, transaction_sms_predicted, DeviceJob,
  DeviceJobState, DepositStatus,
}
use pay.Parsers.Phone.{same_text}

pub record IncomingTransferSms : Type 0 where
  pub amount_minor : ℤ
  pub sender_name : String
  pub sender_phone_suffix : String
  pub sender_phone_prefix : String
  pub provider_transaction_id : String
  pub provider_occurred_at : Option ℕ
  pub current_main_balance_minor : Option ℤ

pub record OutgoingTransferSms : Type 0 where
  pub amount_minor : ℤ
  pub receiver_name : String
  pub receiver_phone_suffix : String
  pub receiver_phone_prefix : String
  pub provider_transaction_id : String
  pub provider_occurred_at : Option ℕ
  pub service_fee_minor : ℤ
  pub vat_minor : ℤ
  pub current_main_balance_minor : Option ℤ

pub record BalanceSms : Type 0 where
  pub incentive_balance_minor : ℤ
  pub main_balance_minor : ℤ
  pub fuel_balance_minor : ℤ
  pub pocket_money_balance_minor : ℤ

pub data ParsedSms : Type 0 where
  incoming_transfer : IncomingTransferSms → ParsedSms
  outgoing_transfer : OutgoingTransferSms → ParsedSms
  balance : BalanceSms → ParsedSms
  unknown : ParsedSms

-- `trim`, of the blanks that a text of code points can begin and end with
abbrev is_blank : ℕ → Bool
is_blank c =
    ((c == b' ') || (leb 9 c && leb c 13))
    || (((c == 160) || (c == 5760))
        || (((leb 8192 c && leb c 8202) || (leb 8232 c && leb c 8233))
            || (((c == 8239) || (c == 8287)) || ((c == 12288) || (c == 65279)))))

unfoldable pub trim_start : List ℕ → List ℕ
trim_start [] = []
trim_start (c ∷ cs) = if is_blank c then trim_start cs else c ∷ cs

unfoldable pub all_blank : List ℕ → Bool
all_blank [] = true
all_blank (c ∷ cs) = is_blank c && all_blank cs

unfoldable pub trim_end : List ℕ → List ℕ
unfolding all_blank
trim_end [] = []
trim_end (c ∷ cs) = if all_blank (c ∷ cs) then [] else c ∷ trim_end cs

-- `isTrustedTelebirrSmsSender`
unfoldable pub is_trusted_telebirr_sms_sender : List ℕ → Bool
unfolding trim_start trim_end all_blank same_text
is_trusted_telebirr_sms_sender sender =
    same_text (b'1' ∷ b'2' ∷ b'7' ∷ []) (trim_end (trim_start sender))

-- `balanceRefreshStatus`, with the status that stays where it returns `undefined`
unfoldable pub balance_refresh_status : SimStatus → SimStatus
balance_refresh_status SimStatus.payout_stale = SimStatus.active
balance_refresh_status s = s

-- `CORRELATABLE_BALANCE_JOB_STATES`
abbrev pub is_correlatable : DeviceJobState → Bool
is_correlatable DeviceJobState.device_started = true
is_correlatable DeviceJobState.committed = true
is_correlatable DeviceJobState.provider_pending = true
is_correlatable _ = false

-- `BALANCE_QUERY_MAX_AGE_MS` before the message to `DEVICE_RECEIPT_CLOCK_SKEW_MS` after it
abbrev pub in_query_window : (observed_at : ℕ) → ℕ → Bool
in_query_window observed at = leb observed (at + 900000) && leb at (observed + 60000)

abbrev pub in_query_window_opt : (observed_at : ℕ) → Option ℕ → Bool
in_query_window_opt observed none = false
in_query_window_opt observed (some at) = in_query_window observed at

abbrev is_held_by : (owner device : Option ℕ) → Bool
is_held_by (some o) (some d) = o == d
is_held_by _ _ = false

abbrev pub lasts_until : ℕ → Option ℕ → Bool
lasts_until observed none = false
lasts_until observed (some at) = leb observed at

-- the filter of `correlatableBalanceQueryLeases`
unfoldable pub is_correlatable_lease : (observed_at : ℕ) → DeviceJob → Bool
is_correlatable_lease observed j =
    (is_correlatable j.state && is_held_by j.lease_owner j.device_id)
    && ((in_query_window_opt observed j.started_at && in_query_window observed j.created_at)
        && (lasts_until observed j.lease_expires_at && leb observed j.expires_at))

-- `resultingOutgoingBalance`
unfoldable pub resulting_outgoing_balance : ℤ → Option ℤ → ℤ → ℤ
resulting_outgoing_balance current none outflow = current -ℤ outflow
resulting_outgoing_balance current (some reported) outflow = reported

-- `effectiveProviderOccurredAt`: the provider's own time where it is at most seven days before the
-- receipt and at most five minutes after it
unfoldable pub effective_provider_occurred_at : (provider_time : Option ℕ) → (received_at : ℕ) → ℕ
effective_provider_occurred_at none received = received
effective_provider_occurred_at (some at) received =
    if ltb (at + 604800000) received || ltb (received + 300000) at then received else at

pub data BalanceDirection : Type 0 where
  increment decrement : BalanceDirection

abbrev predicted_balance : BalanceDirection → ℤ → ℤ → ℤ
predicted_balance increment main x = main +ℤ x
predicted_balance decrement main x = main -ℤ x

abbrev pub is_before : ℕ → Option ℕ → Bool
is_before t none = false
is_before t (some at) = ltb t at

abbrev source_of : Option ℤ → BalanceSource
source_of none = transaction_sms_predicted
source_of (some x) = transaction_sms

-- `transactionBalanceMutationForWallet`, applied to the wallet: a message older than the wallet's
-- own snapshot leaves it
unfoldable pub transaction_balance_mutation :
    (occurred_at : ℕ)
    → (provider_balance : Option ℤ) → (amount : ℤ) → BalanceDirection
    → SimWallet
    → SimWallet
transaction_balance_mutation occurred reported x direction s =
    if is_before occurred s.last_balance_at then s else record s {
      main_balance_minor = reported or_default predicted_balance direction s.main_balance_minor x;
      last_balance_at = some occurred;
      last_balance_source = some (source_of reported);
    }

abbrev pub is_open_for_provider_time : DepositStatus → Bool
is_open_for_provider_time DepositStatus.awaiting_payment = true
is_open_for_provider_time DepositStatus.late_grace = true
is_open_for_provider_time DepositStatus.matching = true
is_open_for_provider_time DepositStatus.expired = true
is_open_for_provider_time _ = false

-- `depositStatusAllowsProviderTimeMatch`
unfoldable pub deposit_status_allows_provider_time_match :
    DepositStatus → (created_at late_grace_ends_at provider_occurred_at : ℕ) → Bool
deposit_status_allows_provider_time_match status created ends occurred =
    is_open_for_provider_time status && (leb created occurred && leb occurred ends)
