-- ===== src/Sms/Ingest.antt =====
-- apps/api/src/sms/sms-ingestion.service.ts: the transaction of `ingest`. The alerts and the copy of
-- the evidence, which follow it, are not part of it.
use Prim.Native.String.{String}
use pay.Shared.{
  ℕ, ◌+◌, Bool, true, false, not, ◌&&◌, ◌||◌, Option, none, some, List, [], ◌∷◌, ◌==◌, ltb,
  if◌then◌else◌, is_some, Table, find, create, modify, Result, ok, ◌>>=◌, ◌>>◌, require, or_throw,
  forbidden,
}
use pay.Shared.Sorting.{filter, sort}
use pay.Domain.{NameDecision, CaseType, clock, sender}
use pay.Store.{
  Db, DeviceJob, SimWallet, SmsReceipt, ReceiptDirection, incoming, outgoing, ReceiptType,
  InboxEvent,
}
use pay.Parsers.Phone.{codes}
use pay.Withdrawals.{is_text, find_by}
use pay.Devices.{quarantine}
use pay.Sms.Rules.{
  ParsedSms, incoming_transfer, outgoing_transfer, balance, unknown, is_trusted_telebirr_sms_sender,
  effective_provider_occurred_at, is_correlatable,
}
use pay.Sms.Wallet.{CorrelationStatus, unmatched, with_case}
use pay.Sms.Balance.{is_balance_query, is_newer_job, apply_balance}
use pay.Sms.Incoming.{match_incoming}
use pay.Sms.Outgoing.{match_outgoing}

-- `SmsIngest`; `sim_id` is the row that its ICCID names, if any, `body_hash` the hash of its body
pub record SmsIngest : Type 0 where
  pub event_id : ℕ
  pub sim_id : ℕ
  pub sender : String
  pub body : String
  pub body_hash : ℕ
  pub received_at : ℕ

pub data IngestType : Type 0 where
  already_processed : IngestType
  of_message : ReceiptType → IngestType

pub record SmsIngestResult : Type 0 where
  pub duplicate : Bool
  pub type : IngestType
  pub matched_reference : Option String
  pub correlation_status : Option CorrelationStatus

abbrev pub type_of : ParsedSms → ReceiptType
type_of (incoming_transfer m) = ReceiptType.incoming_transfer
type_of (outgoing_transfer m) = ReceiptType.outgoing_transfer
type_of (balance m) = ReceiptType.balance
type_of unknown = ReceiptType.unknown

abbrev pub provider_id_of : ParsedSms → Option String
provider_id_of (incoming_transfer m) = some m.provider_transaction_id
provider_id_of (outgoing_transfer m) = some m.provider_transaction_id
provider_id_of (balance m) = none
provider_id_of unknown = none

-- the part of the receipt that depends on the kind of message
abbrev receipt_base : SmsIngest → (received_at : ℕ) → ReceiptDirection → ParsedSms → SmsReceipt
receipt_base e received direction p = record {
  event_id = e.event_id;
  sim_wallet_id = e.sim_id;
  direction = direction;
  type = type_of p;
  provider_transaction_id = provider_id_of p;
  amount_minor = none;
  counterparty_phone_prefix = none;
  counterparty_phone_suffix = none;
  counterparty_name = none;
  provider_occurred_at = none;
  received_at = received;
}

-- `smsReceipt.create`
unfoldable pub receipt_for : SmsIngest → (received_at : ℕ) → ParsedSms → SmsReceipt
receipt_for e received (incoming_transfer m) =
    record (receipt_base e received incoming (incoming_transfer m)) {
      amount_minor = some m.amount_minor;
      counterparty_phone_prefix = some m.sender_phone_prefix;
      counterparty_phone_suffix = some m.sender_phone_suffix;
      counterparty_name = some m.sender_name;
      provider_occurred_at = m.provider_occurred_at;
    }
receipt_for e received (outgoing_transfer m) =
    record (receipt_base e received outgoing (outgoing_transfer m)) {
      amount_minor = some m.amount_minor;
      counterparty_phone_prefix = some m.receiver_phone_prefix;
      counterparty_phone_suffix = some m.receiver_phone_suffix;
      counterparty_name = some m.receiver_name;
      provider_occurred_at = m.provider_occurred_at;
    }
receipt_for e received (balance m) = receipt_base e received incoming (balance m)
receipt_for e received unknown = receipt_base e received incoming unknown

abbrev is_running_query : (sim : ℕ) → ℕ × DeviceJob → Bool
is_running_query sim (_, j) =
    (j.sim_wallet_id == sim) && (is_balance_query j.type && is_correlatable j.state)

abbrev precedes_query : (reported_at : ℕ) → Table DeviceJob → Bool
precedes_query reported [] = false
precedes_query reported ((_, j) ∷ rest) = ltb (reported + 60000) j.created_at

-- `oldBalanceDeviceClock`: the message claims to be older than the newest running query
unfoldable pub old_balance_device_clock : (reported_at sim : ℕ) → ParsedSms → Table DeviceJob → Bool
old_balance_device_clock reported sim (balance m) jobs =
    precedes_query reported (sort is_newer_job (filter (is_running_query sim) jobs))
old_balance_device_clock reported sim (incoming_transfer m) jobs = false
old_balance_device_clock reported sim (outgoing_transfer m) jobs = false
old_balance_device_clock reported sim unknown jobs = false

-- `futureDeviceClock`
abbrev pub future_device_clock : (now reported_at : ℕ) → Bool
future_device_clock now reported = ltb (now + 60000) reported

abbrev pub quarantine_if : Bool → (device_id sim : ℕ) → Db → Db
quarantine_if true device_id sim db = quarantine device_id sim db
quarantine_if false device_id sim db = db

abbrev pub has_provider_id : Option String → Table SmsReceipt → Bool
has_provider_id none receipts = false
has_provider_id (some id) receipts =
    is_some (find_by (λ (r : SmsReceipt). is_text r.provider_transaction_id id) receipts)

unfoldable pub is_known_event : ℕ → List InboxEvent → Bool
is_known_event id [] = false
is_known_event id (e ∷ es) = (id == e.external_id) || is_known_event id es

abbrev pub outcome : ReceiptType → Option String → Option CorrelationStatus → SmsIngestResult
outcome type reference status = record {
  duplicate = false;
  type = of_message type;
  matched_reference = reference;
  correlation_status = status;
}

abbrev pub duplicate_of : IngestType → SmsIngestResult
duplicate_of type = record {
  duplicate = true;
  type = type;
  matched_reference = none;
  correlation_status = none;
}

-- the receipt's row and the wallet's `lastSmsAt`
abbrev pub with_receipt : SmsIngest → (received_at : ℕ) → ParsedSms → Db → Db
with_receipt e received p db = record db {
  receipts = create db.next_id (receipt_for e received p) db.receipts;
  sims = modify e.sim_id (λ (s : SimWallet). record s { last_sms_at = some received }) db.sims;
  next_id = db.next_id + 1;
}

abbrev pub note_event : SmsIngest → Db → Db
note_event e db = record db {
  sms_inbox = record { external_id = e.event_id; payload_hash = e.body_hash } ∷ db.sms_inbox;
}

-- an untrusted sender's message is unknown, whatever it says; `parse` is `parseTelebirrSms`
unfoldable pub parsed_of : (parse : String → ParsedSms) → SmsIngest → ParsedSms
parsed_of parse e =
    if is_trusted_telebirr_sms_sender (codes e.sender) then parse e.body else unknown

-- `comparePersonNames`, its decision
module _ (compare_person_names : String → String → NameDecision) where
  -- the work on a new receipt, by the kind of message; `old` is `oldBalanceDeviceClock`
  unfoldable pub correlate :
      (system now device_id receipt_id : ℕ)
      → SmsIngest
      → (old : Bool) → (received_at : ℕ) → ParsedSms
      → Db
      → Result (SmsIngestResult × Db)
  correlate system now device_id receipt_id e old received (balance m) db =
      if old
      then ok (
        outcome ReceiptType.balance none (some unmatched),
        with_case none CaseType.device_clock_invalid_balance_sms receipt_id (clock device_id) db,
      )
      else (let applied =
            apply_balance e.sim_id receipt_id (is_trusted_telebirr_sms_sender (codes e.sender)) m
              received db in
          ok (outcome ReceiptType.balance none (some applied.0), applied.1))
  correlate system now device_id receipt_id e old received (incoming_transfer m) db = do
    found ←
        match_incoming compare_person_names system now e.sim_id receipt_id m
          (effective_provider_occurred_at m.provider_occurred_at received) db
    ok (outcome ReceiptType.incoming_transfer found.0 none, found.1)
  correlate system now device_id receipt_id e old received (outgoing_transfer m) db = do
    found ←
        match_outgoing compare_person_names now e.sim_id receipt_id m
          (effective_provider_occurred_at m.provider_occurred_at received) db
    ok (outcome ReceiptType.outgoing_transfer found.0.matched_reference found.0.status, found.1)
  correlate system now device_id receipt_id e old received unknown db = ok (
    outcome ReceiptType.unknown none none,
    with_case none CaseType.unknown_sms receipt_id (sender e.sender) db,
  )

  -- a message whose provider transaction id has a receipt is a second copy
  unfoldable pub ingest_new :
      (system now device_id : ℕ)
      → SmsIngest
      → (old : Bool) → (received_at : ℕ) → ParsedSms
      → Db
      → Result (SmsIngestResult × Db)
  ingest_new system now device_id e old received p db =
      if has_provider_id (provider_id_of p) db.receipts
      then ok (duplicate_of (of_message (type_of p)), db)
      else correlate system now device_id db.next_id e old received p (with_receipt e received p db)

  -- the message of an enrolled SIM; the server's time takes the place of an impossible one
  unfoldable pub ingest_message :
      (system now device_id : ℕ) → SmsIngest → ParsedSms → Db → Result (SmsIngestResult × Db)
  ingest_message system now device_id e p db =
      let future = future_device_clock now e.received_at in
      let old = not future && old_balance_device_clock e.received_at e.sim_id p db.jobs in
      ingest_new system now device_id e old (if future || old then now else e.received_at) p
        (note_event e (quarantine_if (future || old) device_id e.sim_id db))

  -- `ingest`
  unfoldable pub ingest :
      (parse_telebirr_sms : String → ParsedSms)
      → (system now device_id : ℕ) → SmsIngest
      → Db
      → Result (SmsIngestResult × Db)
  ingest parse_telebirr_sms system now device_id e db =
      if is_known_event e.event_id db.sms_inbox
      then ok (duplicate_of already_processed, db)
      else (or_throw (find e.sim_id db.sims) forbidden >>= λ s.
          require (s.device_id == device_id) forbidden
          >> ingest_message system now device_id e (parsed_of parse_telebirr_sms e) db)
