-- ===== src/Sms/Inbox.antt =====
-- apps/api/src/sms/sms-ingestion.service.ts: the inbox stands still while a
-- message is matched.
use Prim.Native.String.{String}
use pay.Shared.{
  ℕ, ◌≡◌, refl, ◌∙◌, Bool, true, false, ◌&&◌, inl, inr, Bool-cases, Option, [], ◌∷◌, if-cases,
  Table, find, ok, ◌>>=◌, >>=-eq-ok, ok_injective,
}
use pay.Ledger.{credit_deposit, move_receipt_to_suspense}
use pay.Store.{Db, DeviceJob, DepositIntent, Transfer}
use pay.Withdrawals.{settle_funds, latest_attempt, LinkedStatus, is_text}
use pay.Sms.Rules.{BalanceSms, IncomingTransferSms, OutgoingTransferSms}
use pay.Sms.Balance.{apply_correlated, answer_query, is_stale}
use pay.Sms.Incoming.{settle_incoming, credit_match, suspend_receipt, suspense_owner}
use pay.Sms.Outgoing.{
  OutgoingMatch, matched_to, settle_match, settle_outgoing, hold_outflow, books_before,
  with_late_case, is_failed_transfer, is_success, actual_provider_fee,
}
use pay.Sms.Frames.{
  SameEvidence, evidence-linked, evidence-treasury, succeed_job-SameButDevices,
  frame-succeed_attempt,
}

pub inbox-correlated :
    (sim rid observed : ℕ) (m : BalanceSms) (leases : Table DeviceJob) (db : Db)
    → (apply_correlated sim rid observed m leases db).1.sms_inbox ≡ db.sms_inbox
unfolding apply_correlated answer_query
inbox-correlated sim rid observed m [] db = refl
inbox-correlated sim rid observed m ((id, j) ∷ []) db =
    elim (Bool-cases (is_stale observed (find sim db.sims))) [
      | inl stale ↦ rw stale refl
      | inr fresh ↦ rw fresh (succeed_job-SameButDevices observed id j _).3
    ]
inbox-correlated sim rid observed m (x ∷ y ∷ rest) db = refl

inbox-suspend :
    (system now sim rid : ℕ) (m : IncomingTransferSms) (occurred : ℕ)
    (potential strong : Table DepositIntent) (db db' : Db)
    → suspend_receipt system now sim rid m occurred potential strong db ≡ ok db'
    → db'.sms_inbox ≡ db.sms_inbox
unfolding suspend_receipt
inbox-suspend system now sim rid m occurred potential strong db db' h =
    let (b, _, last) =
      >>=-eq-ok
        (move_receipt_to_suspense (suspense_owner system potential) rid m.amount_minor db.books) _
        h in
    rw (← ok_injective last) refl

pub inbox-incoming :
    (system now sim rid : ℕ) (m : IncomingTransferSms) (occurred : ℕ)
    (potential strong : Table DepositIntent) (db : Db) (p : Option String × Db)
    → settle_incoming system now sim rid m occurred potential strong db ≡ ok p
    → p.1.sms_inbox ≡ db.sms_inbox
unfolding settle_incoming credit_match
inbox-incoming system now sim rid m occurred potential [] db p h =
    let (x, went, same) =
      >>=-eq-ok (suspend_receipt system now sim rid m occurred potential [] db) _ h in
    rw (← ok_injective same) (inbox-suspend system now sim rid m occurred potential [] db x went)
inbox-incoming system now sim rid m occurred potential ((id, d) ∷ []) db p h =
    let (x, went, same) = >>=-eq-ok (credit_match now sim rid m occurred id d db) _ h in
    let (b, _, last) = >>=-eq-ok (credit_deposit d.owner id m.amount_minor db.books) _ went in
    rw (← ok_injective same, ← ok_injective last) refl
inbox-incoming system now sim rid m occurred potential (x ∷ y ∷ rest) db p h =
    let (z, went, same) =
      >>=-eq-ok (suspend_receipt system now sim rid m occurred potential (x ∷ y ∷ rest) db) _ h in
    rw (← ok_injective same)
      (inbox-suspend system now sim rid m occurred potential (x ∷ y ∷ rest) db z went)

inbox-noted :
    (released : Bool) (id rid : ℕ) (t : Transfer) (db : Db)
    → (with_late_case released id t rid db).sms_inbox ≡ db.sms_inbox
inbox-noted true id rid t db = refl
inbox-noted false id rid t db = refl

inbox-settle :
    (now sim rid : ℕ) (m : OutgoingTransferSms) (occurred id : ℕ) (t : Transfer) (db db' : Db)
    → settle_outgoing now sim rid m occurred id t db ≡ ok db'
    → db'.sms_inbox ≡ db.sms_inbox
unfolding settle_outgoing SameEvidence
inbox-settle now sim rid m occurred id t db db' h =
    let released = is_failed_transfer t.status in
    let (held, _, f) = >>=-eq-ok (books_before released id t db.books) _ h in
    let noted = with_late_case released id t rid (record db { books = held }) in
    let (b, _, last) = >>=-eq-ok (settle_funds id t (actual_provider_fee m) noted.books) _ f in
    rw (← ok_injective last) (
      (evidence-linked now id LinkedStatus.success _).0
      ∙ ((frame-succeed_attempt now (latest_attempt id db.attempts) _).3
          ∙ ((evidence-treasury t _).0
              ∙ inbox-noted released id rid t (record db { books = held }))))

pub inbox-outgoing :
    (now sim rid : ℕ) (m : OutgoingTransferSms) (occurred : ℕ) (rows matches : Table Transfer)
    (db : Db) (p : OutgoingMatch × Db)
    → settle_match now sim rid m occurred rows matches db ≡ ok p
    → p.1.sms_inbox ≡ db.sms_inbox
unfolding settle_match hold_outflow
inbox-outgoing now sim rid m occurred rows [] db p h = rw (← ok_injective h) refl
inbox-outgoing now sim rid m occurred rows ((id, t) ∷ []) db p h =
    elim (if-cases
      (is_success t.status && is_text t.provider_transaction_id m.provider_transaction_id)
      (ok (matched_to t, db))
      (settle_outgoing now sim rid m occurred id t db >>= λ x. ok (matched_to t, x)) (ok p) h) [
        | inl (_, same) ↦ rw (← ok_injective same) refl
        | inr (_, went) ↦
            let (x, settled, same) =
              >>=-eq-ok (settle_outgoing now sim rid m occurred id t db) _ went in
            rw (← ok_injective same) (inbox-settle now sim rid m occurred id t db x settled)
      ]
inbox-outgoing now sim rid m occurred rows (x ∷ y ∷ rest) db p h = rw (← ok_injective h) refl
