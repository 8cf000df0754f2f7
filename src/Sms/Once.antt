-- ===== src/Sms/Once.antt =====
-- apps/api/src/sms/sms-ingestion.service.ts: `ingest` on a message that it has taken before.
use Prim.Native.String.{String}
use pay.Shared.{
  ℕ, ◌≡◌, refl, sym, ap, ◌∙◌, Bool, true, false, not, ◌&&◌, ◌||◌, ◌⊎◌, inl, inr, Bool-cases, ◌==◌,
  ==_refl, if-cases, find, ok, ◌>>=◌, ◌>>◌, >>=-eq-ok, ok_injective, require, or_throw, forbidden,
}
use pay.Domain.{NameDecision}
use pay.Store.{Db, SimWallet}
use pay.Parsers.Phone.{codes}
use pay.Sms.Rules.{
  ParsedSms, incoming_transfer, outgoing_transfer, balance, unknown, is_trusted_telebirr_sms_sender,
  effective_provider_occurred_at,
}
use pay.Sms.Balance.{apply_balance, balance_candidates}
use pay.Sms.Incoming.{match_incoming}
use pay.Sms.Outgoing.{match_outgoing}
use pay.Sms.Ingest.{
  SmsIngest, SmsIngestResult, already_processed, of_message, type_of, duplicate_of, is_known_event,
  future_device_clock, old_balance_device_clock, quarantine_if, note_event, with_receipt,
  has_provider_id, provider_id_of, parsed_of, correlate, ingest_new, ingest_message, ingest,
}
use pay.Sms.Inbox.{inbox-correlated, inbox-incoming, inbox-outgoing}

module _ (compare_person_names : String → String → NameDecision) (system now device_id : ℕ)
    (e : SmsIngest) where
  inbox-correlate :
      (rid : ℕ) (old : Bool) (received : ℕ) (p : ParsedSms) (db : Db) (out : SmsIngestResult × Db)
      → correlate compare_person_names system now device_id rid e old received p db ≡ ok out
      → out.1.sms_inbox ≡ db.sms_inbox
  unfolding correlate apply_balance match_incoming match_outgoing
  inbox-correlate rid old received (balance m) db out h = elim (Bool-cases old) [
    | inl is_old ↦ rw (← ok_injective (rw is_old at h)) refl
    | inr timely ↦ rw (← ok_injective (rw timely at h)) (
        inbox-correlated e.sim_id rid received m
          (balance_candidates e.sim_id received (is_trusted_telebirr_sms_sender (codes e.sender))
            db.jobs)
          db)
  ]
  inbox-correlate rid old received (incoming_transfer m) db out h =
      let at = effective_provider_occurred_at m.provider_occurred_at received in
      let (found, went, same) =
        >>=-eq-ok (match_incoming compare_person_names system now e.sim_id rid m at db) _ h in
      rw (← ok_injective same) (inbox-incoming system now e.sim_id rid m at _ _ db found went)
  inbox-correlate rid old received (outgoing_transfer m) db out h =
      let at = effective_provider_occurred_at m.provider_occurred_at received in
      let (found, went, same) =
        >>=-eq-ok (match_outgoing compare_person_names now e.sim_id rid m at db) _ h in
      rw (← ok_injective same) (inbox-outgoing now e.sim_id rid m at _ _ db found went)
  inbox-correlate rid old received unknown db out h = rw (← ok_injective h) refl

  inbox-quarantine :
      (b : Bool) (db : Db) → (quarantine_if b device_id e.sim_id db).sms_inbox ≡ db.sms_inbox
  inbox-quarantine true db = refl
  inbox-quarantine false db = refl

  inbox-new :
      (old : Bool) (received : ℕ) (p : ParsedSms) (db : Db) (out : SmsIngestResult × Db)
      → ingest_new compare_person_names system now device_id e old received p db ≡ ok out
      → out.1.sms_inbox ≡ db.sms_inbox
  unfolding ingest_new
  inbox-new old received p db out h =
      elim (if-cases (has_provider_id (provider_id_of p) db.receipts)
        (ok (duplicate_of (of_message (type_of p)), db))
        (correlate compare_person_names system now device_id db.next_id e old received p
          (with_receipt e received p db))
        (ok out) h) [
          | inl (_, same) ↦ rw (← ok_injective same) refl
          | inr (_, went) ↦
              inbox-correlate db.next_id old received p (with_receipt e received p db) out went
        ]

  -- the event of a message that went through is known from then on
  known-message :
      (p : ParsedSms) (db : Db) (out : SmsIngestResult × Db)
      → ingest_message compare_person_names system now device_id e p db ≡ ok out
      → is_known_event e.event_id out.1.sms_inbox ≡ true
  unfolding ingest_message is_known_event
  known-message p db out h =
      let noted = note_event e (
        quarantine_if
          (future_device_clock now e.received_at
            || (not (future_device_clock now e.received_at)
                && old_balance_device_clock e.received_at e.sim_id p db.jobs))
          device_id e.sim_id db) in
      rw (inbox-new _ _ p noted out h, ==_refl e.event_id) refl

  -- a message is known already, or it goes through as one of an enrolled SIM
  pub ingest-cases :
      (parse : String → ParsedSms) (db : Db) (out : SmsIngestResult × Db)
      → ingest compare_person_names parse system now device_id e db ≡ ok out
      → ((is_known_event e.event_id db.sms_inbox ≡ true)
          × (out ≡ (duplicate_of already_processed, db)))
        ⊎ (ingest_message compare_person_names system now device_id e (parsed_of parse e) db
            ≡ ok out)
  unfolding ingest
  ingest-cases parse db out h =
      let new = or_throw (find e.sim_id db.sims) forbidden >>= λ (s : SimWallet).
      require (s.device_id == device_id) forbidden
      >> ingest_message compare_person_names system now device_id e (parsed_of parse e) db in
      elim (if-cases (is_known_event e.event_id db.sms_inbox)
        (ok (duplicate_of already_processed, db)) new (ok out) h) [
          | inl (known, same) ↦ inl (known, sym (ok_injective same))
          | inr (_, went) ↦
              let (s, _, f) = >>=-eq-ok (or_throw (find e.sim_id db.sims) forbidden) _ went in
              let (_, _, last) = >>=-eq-ok (require (s.device_id == device_id) forbidden) _ f in
              inr last
        ]

  -- Delivered once more under the same event id, by whatever device and at whatever time, a message
  -- that went through does nothing: it is reported as processed already.
  pub ingest-once :
      (parse : String → ParsedSms) (now' device_id' : ℕ) (db db' : Db) (r : SmsIngestResult)
      → ingest compare_person_names parse system now device_id e db ≡ ok (r, db')
      → ingest compare_person_names parse system now' device_id' e db'
        ≡ ok (duplicate_of already_processed, db')
  unfolding ingest
  ingest-once parse now' device_id' db db' r h =
      let known : is_known_event e.event_id db'.sms_inbox ≡ true =
        elim (ingest-cases parse db (r, db') h) [
          | inl (before, same) ↦
              ap (λ (p : SmsIngestResult × Db). is_known_event e.event_id p.1.sms_inbox) same
              ∙ before
          | inr went ↦ known-message (parsed_of parse e) db (r, db') went
        ] in
      rw known refl
