-- ===== src/Devices/Reports.antt =====
-- apps/api/src/devices/device-jobs.service.ts: what a handset's report holds, the inbox that makes
-- its delivery idempotent, and the test that a SIM may start to pay.
use Prim.Native.String.{String}
use pay.Shared.{
  ℕ, ◌+◌, ◌*◌, Bool, true, false, ◌&&◌, ◌||◌, Option, none, some, List, [], ◌∷◌, ◌==◌, leb,
  if◌then◌else◌, ◌or_else◌, ◌or_default◌,
}
use pay.Shared.Int.{pos, ◌+ℤ◌, ◌-ℤ◌, leb_ℤ}
use pay.Domain.{
  uncertain, mismatch, ReconciliationCase, CaseType, receiver_name_review, receiver_name_mismatch,
  opened, resolved, names,
}
use pay.Store.{
  Db, Transfer, TransferAttempt, DeviceJob, DeviceJobState, SimWallet, is_active_sim, Device,
  is_online, DeviceGroup, InboxEvent,
}
use pay.Withdrawals.{is_same_day, is_open_case}
use pay.Devices.Rules.{
  ReportedTime, PrecommitNameDisposition, no_disposition, name_uncertain, name_mismatch,
}

pub record DeviceJobReport : Type 0 where
  pub state : DeviceJobState
  pub fencing_token : ℕ
  pub observed_at_ms : ReportedTime
  pub error_code : String

-- `SpoolStatusContext`: the event's id, the hash of its payload, and what the event says
pub record SpoolContext : Type 0 where
  pub event_id : ℕ
  pub payload_hash : ℕ
  pub financial_operation_id : ℕ
  pub expected_receiver_name : Option String
  pub provider_receiver_name : Option String

abbrev pub is_attempt_of : ℕ → TransferAttempt → Bool
is_attempt_of job_id a = elim a.device_job_id [ none ↦ false | some j ↦ job_id == j ]

abbrev pub job_index : DeviceJobState → ℕ
job_index DeviceJobState.queued = 0
job_index DeviceJobState.leased = 1
job_index DeviceJobState.device_started = 2
job_index DeviceJobState.committed = 3
job_index DeviceJobState.provider_pending = 4
job_index DeviceJobState.succeeded = 5
job_index DeviceJobState.failed = 6
job_index DeviceJobState.unknown = 7
job_index DeviceJobState.cancelled = 8

abbrev pub same_state : DeviceJobState → DeviceJobState → Bool
same_state a b = job_index a == job_index b

-- the states whose late reports are kept as evidence once the job is unknown
abbrev pub is_late_evidence : DeviceJobState → Bool
is_late_evidence DeviceJobState.queued = false
is_late_evidence DeviceJobState.leased = false
is_late_evidence DeviceJobState.cancelled = false
is_late_evidence _ = true

-- `['committed', 'provider_pending', 'succeeded']`
abbrev pub proves_commit : DeviceJobState → Bool
proves_commit DeviceJobState.committed = true
proves_commit DeviceJobState.provider_pending = true
proves_commit DeviceJobState.succeeded = true
proves_commit _ = false

-- `['succeeded', 'failed', 'unknown', 'cancelled']`
abbrev pub is_finished : DeviceJobState → Bool
is_finished DeviceJobState.succeeded = true
is_finished DeviceJobState.failed = true
is_finished DeviceJobState.unknown = true
is_finished DeviceJobState.cancelled = true
is_finished _ = false

-- the stored hash of an event id
unfoldable pub inbox_hash : ℕ → List InboxEvent → Option ℕ
inbox_hash event_id [] = none
inbox_hash event_id (e ∷ es) =
    if event_id == e.external_id then some e.payload_hash else inbox_hash event_id es

-- `transfer_id ?? financial_operation_id ?? job.id`
abbrev pub operation_id : ℕ → DeviceJob → ℕ
operation_id id j = (j.transfer_id or_else j.financial_operation_id) or_default id

abbrev pub add_case : ReconciliationCase → Db → Db
add_case c db = record db { books = record (db.books) { cases = c ∷ db.books.cases } }

-- a date that is there and at most so many milliseconds old
abbrev pub is_recent : (now window : ℕ) → Option ℕ → Bool
is_recent now window none = false
is_recent now window (some t) = leb now (t + window)

-- the SIM may start to pay: its own state, its device's, its liquidity and its daily headroom
unfoldable pub may_start : (now stale_seconds : ℕ) → SimWallet → Device → DeviceGroup → Bool
may_start now stale s d g =
    (is_active_sim s.status && is_recent now (stale * 1000) s.last_balance_at)
    && ((is_online d.status
          && (is_recent now 90000 d.last_heartbeat_at
              && (d.last_permissions_ok && d.last_accessibility_ok)))
        && (leb_ℤ g.safety_balance_minor (s.main_balance_minor -ℤ s.reserved_balance_minor)
            && leb_ℤ
                ((if is_same_day now s.financial_day then s.sent_today_minor else pos 0)
                  +ℤ s.reserved_balance_minor)
                g.daily_limit_minor))

abbrev pub is_review : CaseType → Bool
is_review receiver_name_review = true
is_review _ = false

abbrev pub is_mismatch : CaseType → Bool
is_mismatch receiver_name_mismatch = true
is_mismatch _ = false

-- `type` and, for a review, the open status that `findFirst` asks for
abbrev pub has_name_case : Bool → ℕ → List ReconciliationCase → Bool
has_name_case review id [] = false
has_name_case review id (c ∷ cs) =
    ((id == c.reference_id)
      && (if review then is_review c.type && is_open_case c.status else is_mismatch c.type))
    || has_name_case review id cs

abbrev pub name_case : ℕ → ℕ → Transfer → PrecommitNameDisposition → Db → Db
name_case job_id transfer_id t no_disposition db = db
name_case job_id transfer_id t (name_uncertain expected observed) db =
    if has_name_case true transfer_id db.books.cases
    then db
    else add_case
        (record {
          merchant_id = some (t.owner.merchant_id);
          type = receiver_name_review;
          status = opened;
          reference_id = transfer_id;
          evidence = names expected observed uncertain job_id;
        })
        db
name_case job_id transfer_id t (name_mismatch expected observed) db =
    if has_name_case false transfer_id db.books.cases
    then db
    else add_case
        (record {
          merchant_id = some (t.owner.merchant_id);
          type = receiver_name_mismatch;
          status = resolved;
          reference_id = transfer_id;
          evidence = names expected observed mismatch job_id;
        })
        db

abbrev pub name_case_of :
    ℕ → Option (ℕ × TransferAttempt × Transfer) → PrecommitNameDisposition → Db → Db
name_case_of job_id none n db = db
name_case_of job_id (some (_, a, t)) n db = name_case job_id a.transfer_id t n db

-- `persistSpoolStatusOutcome`, where the report came through the spool: the inbox row goes in last
unfoldable pub persist_spool_outcome :
    ℕ
    → Option (ℕ × TransferAttempt × Transfer)
    → Option SpoolContext
    → PrecommitNameDisposition
    → Db
    → Db
persist_spool_outcome job_id linked none n db = db
persist_spool_outcome job_id linked (some c) n db =
    let db' = name_case_of job_id linked n db in
    record db' {
      inbox = record { external_id = c.event_id; payload_hash = c.payload_hash } ∷ db'.inbox;
    }
