-- ===== src/Sms/Copies.antt =====
-- apps/api/src/sms/sms-ingestion.service.ts: `ingest` on second receipts of a payment and on
-- untrusted senders.
use Prim.Native.String.{String}
use pay.Shared.{
  ℕ, ◌≡◌, refl, sym, ap, ◌∙◌, Bool, true, false, not, ◌&&◌, ◌||◌, inl, inr, ok, ok_injective,
}
use pay.Domain.{NameDecision}
use pay.Store.{Db}
use pay.Parsers.Phone.{codes}
use pay.Withdrawals.Resolution.{SameLedger}
use pay.Sms.Rules.{ParsedSms, unknown, is_trusted_telebirr_sms_sender}
use pay.Sms.Ingest.{
  SmsIngest, SmsIngestResult, of_message, type_of, duplicate_of, future_device_clock,
  old_balance_device_clock, quarantine_if, note_event, has_provider_id, provider_id_of, parsed_of,
  correlate, ingest_new, ingest_message, ingest,
}
use pay.Ledger.{Books}
use pay.Sms.Once.{ingest-cases}

module _ (compare_person_names : String → String → NameDecision) (system now device_id : ℕ)
    (e : SmsIngest) where
  quarantine-same :
      (b : Bool) (db : Db)
      → let x = quarantine_if b device_id e.sim_id db in
        (x.books ≡ db.books)
        × (x.transfers ≡ db.transfers)
        × (x.deposits ≡ db.deposits)
        × (x.receipts ≡ db.receipts)
        × (x.jobs ≡ db.jobs)
  quarantine-same true db = (refl, refl, refl, refl, refl)
  quarantine-same false db = (refl, refl, refl, refl, refl)

  new-duplicate :
      (old : Bool) (received : ℕ) (p : ParsedSms) (db : Db) (out : SmsIngestResult × Db)
      → has_provider_id (provider_id_of p) db.receipts ≡ true
      → ingest_new compare_person_names system now device_id e old received p db ≡ ok out
      → out ≡ (duplicate_of (of_message (type_of p)), db)
  unfolding ingest_new
  new-duplicate old received p db out seen h = sym (ok_injective (rw seen at h))

  -- the part of the database that the money stands in
  abbrev SamePayments : Db → Db → Type 0
  SamePayments a b =
      (b.books ≡ a.books)
      × (b.transfers ≡ a.transfers)
      × (b.deposits ≡ a.deposits)
      × (b.receipts ≡ a.receipts)
      × (b.jobs ≡ a.jobs)

  copy-pays_nothing :
      (parse : String → ParsedSms) (db : Db) (out : SmsIngestResult × Db)
      → has_provider_id (provider_id_of (parsed_of parse e)) db.receipts ≡ true
      → ingest compare_person_names parse system now device_id e db ≡ ok out
      → (out.0.duplicate ≡ true) × SamePayments db out.1
  unfolding ingest_message
  copy-pays_nothing parse db out seen h =
      elim (ingest-cases compare_person_names system now device_id e parse db out h) [
        | inl (_, same) ↦ rw same (refl, (refl, refl, refl, refl, refl))
        | inr went ↦
            let p = parsed_of parse e in
            let future = future_device_clock now e.received_at in
            let flag =
              future || (not future && old_balance_device_clock e.received_at e.sim_id p db.jobs) in
            let (books, transfers, deposits, receipts, jobs) = quarantine-same flag db in
            let noted = note_event e (quarantine_if flag device_id e.sim_id db) in
            rw (new-duplicate _ _ p noted out (rw receipts seen) went)
              (refl, (books, transfers, deposits, receipts, jobs))
      ]

  -- A message whose provider transaction id a receipt has already is a second copy of the same
  -- payment: under whatever event id it comes, it is reported as a duplicate and moves nothing in
  -- the ledger, no transfer, no deposit and no job, and makes no second receipt.
  pub ingest-pays_once :
      (parse : String → ParsedSms) (db db' : Db) (r : SmsIngestResult)
      → has_provider_id (provider_id_of (parsed_of parse e)) db.receipts ≡ true
      → ingest compare_person_names parse system now device_id e db ≡ ok (r, db')
      → (r.duplicate ≡ true)
        × (db'.books ≡ db.books)
        × (db'.transfers ≡ db.transfers)
        × (db'.deposits ≡ db.deposits)
        × (db'.receipts ≡ db.receipts)
        × (db'.jobs ≡ db.jobs)
  ingest-pays_once parse db db' r seen h =
      let (duplicate, (books, transfers, deposits, receipts, jobs)) =
        copy-pays_nothing parse db (r, db') seen h in
      (duplicate, books, transfers, deposits, receipts, jobs)

  new-unknown :
      (old : Bool) (received : ℕ) (db : Db) (out : SmsIngestResult × Db)
      → ingest_new compare_person_names system now device_id e old received unknown db ≡ ok out
      → SameLedger db.books out.1.books
        × (out.1.transfers ≡ db.transfers)
        × (out.1.deposits ≡ db.deposits)
        × (out.1.jobs ≡ db.jobs)
  unfolding ingest_new correlate SameLedger
  new-unknown old received db out h = rw (← ok_injective h) ((refl, refl, refl), refl, refl, refl)

  stranger-moves_nothing :
      (parse : String → ParsedSms) (db : Db) (out : SmsIngestResult × Db)
      → is_trusted_telebirr_sms_sender (codes e.sender) ≡ false
      → ingest compare_person_names parse system now device_id e db ≡ ok out
      → SameLedger db.books out.1.books
        × (out.1.transfers ≡ db.transfers)
        × (out.1.deposits ≡ db.deposits)
        × (out.1.jobs ≡ db.jobs)
  unfolding ingest_message parsed_of SameLedger old_balance_device_clock
  stranger-moves_nothing parse db out stranger h =
      elim (ingest-cases compare_person_names system now device_id e parse db out h) [
        | inl (_, same) ↦ rw same ((refl, refl, refl), refl, refl, refl)
        | inr went ↦
            let message = rw stranger at went in
            let future = future_device_clock now e.received_at in
            let flag = future || (not future && false) in
            let (books, transfers, deposits, _, jobs) = quarantine-same flag db in
            let noted = note_event e (quarantine_if flag device_id e.sim_id db) in
            let ((accounts, journals, entries), transfers', deposits', jobs') =
              new-unknown _ _ noted out message in
            (
              (
                accounts ∙ ap (λ (x : Books). x.accounts) books,
                journals ∙ ap (λ (x : Books). x.journals) books,
                entries ∙ ap (λ (x : Books). x.entries) books,
              ),
              transfers' ∙ transfers,
              deposits' ∙ deposits,
              jobs' ∙ jobs,
            )
      ]

  -- A message of any sender but the provider's number moves nothing in the ledger, no transfer, no
  -- deposit and no job, whatever it says.
  pub ingest-trusts :
      (parse : String → ParsedSms) (db db' : Db) (r : SmsIngestResult)
      → is_trusted_telebirr_sms_sender (codes e.sender) ≡ false
      → ingest compare_person_names parse system now device_id e db ≡ ok (r, db')
      → SameLedger db.books db'.books
        × (db'.transfers ≡ db.transfers)
        × (db'.deposits ≡ db.deposits)
        × (db'.jobs ≡ db.jobs)
  ingest-trusts parse db db' r stranger h = stranger-moves_nothing parse db (r, db') stranger h
