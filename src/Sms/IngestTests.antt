-- ===== src/Sms/IngestTests.antt =====
-- Runs of `ingest` and of `applyBalance` at a concrete database, and the theorems about them.
use Prim.Native.String.{String}
use pay.Shared.{◌≡◌, refl, true, none, some, [], ◌∷◌, ok}
use pay.Shared.Int.{pos}
use pay.Samples.{sim, job_in}
use pay.Parsers.Phone.{same_text}
use pay.Store.{Db, DeviceJob, DeviceJobState, DeviceJobType, ReceiptType}
use pay.Withdrawals.Resolution.{SameLedger}
use pay.Sms.Rules.{
  ParsedSms, incoming_transfer, BalanceSms, is_trusted_telebirr_sms_sender, trim_start, trim_end,
  all_blank, effective_provider_occurred_at, balance_refresh_status, is_correlatable_lease,
}
use pay.Sms.Balance.{
  apply_balance, apply_correlated, answer_query, balance_candidates, is_recent_balance_job,
}
use pay.Sms.Ingest.{
  SmsIngest, SmsIngestResult, already_processed, duplicate_of, of_message, outcome, is_known_event,
  parsed_of, receipt_for, correlate, ingest_new, ingest_message, ingest, old_balance_device_clock,
}
use pay.Sms.Once.{ingest-once}
use pay.Sms.Copies.{ingest-pays_once, ingest-trusts}
use pay.Sms.Snapshot.{IsSafeRefresh, apply_balance-IsSafeRefresh}
use pay.Sms.Tests.{sms, same_name, received_message, waiting_db, db_of}

ingests : Unit {0}
unfolding sms ingest ingest_message ingest_new correlate parsed_of receipt_for is_known_event
    is_trusted_telebirr_sms_sender trim_start trim_end all_blank same_text
    effective_provider_occurred_at old_balance_device_clock apply_balance apply_correlated
    answer_query balance_candidates is_recent_balance_job is_correlatable_lease
    balance_refresh_status
ingests = tt

-- a parser that knows one message
abbrev reads_payment : String → ParsedSms
reads_payment body = incoming_transfer received_message

abbrev event : SmsIngest
event = record {
  event_id = 31;
  sim_id = 6;
  sender = " 127 ";
  body = "You have received ETB 7.00";
  body_hash = 77;
  received_at = 1200000;
}

abbrev taken_db : Db
taken_db = db_of (ingest same_name reads_payment 99 1250000 5 event waiting_db)

abbrev taken : SmsIngestResult
taken = outcome ReceiptType.incoming_transfer (some "D-1") none

is_taken : ingest same_name reads_payment 99 1250000 5 event waiting_db ≡ ok (taken, taken_db)
unfolding ingests
is_taken = refl

ingest-once_example :
    ingest same_name reads_payment 99 1350000 5 event taken_db
    ≡ ok (duplicate_of already_processed, taken_db)
ingest-once_example =
    ingest-once same_name 99 1250000 5 event reads_payment 1350000 5 waiting_db taken_db taken
      is_taken

-- the same payment under another event id
abbrev copy : SmsIngest
copy = record event { event_id = 32 }

abbrev copied_db : Db
copied_db = db_of (ingest same_name reads_payment 99 1350000 5 copy taken_db)

ingest-pays_once_example :
    ((duplicate_of (of_message ReceiptType.incoming_transfer)).duplicate ≡ true)
    × (copied_db.books ≡ taken_db.books)
    × (copied_db.transfers ≡ taken_db.transfers)
    × (copied_db.deposits ≡ taken_db.deposits)
    × (copied_db.receipts ≡ taken_db.receipts)
    × (copied_db.jobs ≡ taken_db.jobs)
unfolding ingests
ingest-pays_once_example =
    ingest-pays_once same_name 99 1350000 5 copy reads_payment taken_db copied_db
      (duplicate_of (of_message ReceiptType.incoming_transfer)) refl refl

abbrev forged : SmsIngest
forged = record event { sender = "+251911000000" }

abbrev forged_db : Db
forged_db = db_of (ingest same_name reads_payment 99 1250000 5 forged waiting_db)

ingest-trusts_example :
    SameLedger waiting_db.books forged_db.books
    × (forged_db.transfers ≡ waiting_db.transfers)
    × (forged_db.deposits ≡ waiting_db.deposits)
    × (forged_db.jobs ≡ waiting_db.jobs)
unfolding ingests
ingest-trusts_example =
    ingest-trusts same_name 99 1250000 5 forged reads_payment waiting_db forged_db
      (outcome ReceiptType.unknown none none) refl refl

abbrev query : DeviceJob
query = record (job_in DeviceJobState.device_started) {
  type = DeviceJobType.balance_query;
  started_at = some 110000;
}

abbrev asking_db : Db
asking_db = record waiting_db { jobs = (1, query) ∷ [] }

abbrev balances : BalanceSms
balances = record {
  incentive_balance_minor = pos 1;
  main_balance_minor = pos 84000;
  fuel_balance_minor = pos 2;
  pocket_money_balance_minor = pos 3;
}

apply_balance-IsSafeRefresh_example :
    IsSafeRefresh 6 120000 balances sim asking_db
      (apply_balance 6 12 true balances 120000 asking_db).1
unfolding ingests
apply_balance-IsSafeRefresh_example =
    apply_balance-IsSafeRefresh 6 12 true balances 120000 asking_db sim refl
