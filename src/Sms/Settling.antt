-- ===== src/Sms/Settling.antt =====
-- apps/api/src/sms/sms-ingestion.service.ts: what `matchOutgoing` does to the money, on each of its
-- outcomes.
use pay.Shared.{
  ℕ, ◌≡◌, refl, sym, ap, ◌∙◌, Bool, true, false, ◌&&◌, inl, inr, some, List, [], ◌∷◌, Table, find,
  modify, find-modify-some, ok, ◌>>=◌, >>=-eq-ok, ok_injective, str_eq_iff, if-cases,
}
use pay.Ledger.{Books}
use pay.Store.{Db, Transfer, TransferStatus, SimWallet}
use pay.Withdrawals.{
  settle_funds, set_transfer, latest_attempt, emit, transfer_event, LinkedStatus,
  credit_treasury_if_internal, is_text,
}
use pay.Withdrawals.Frames.{SameCore, SameMoney, frame-linked, frame-treasury}
use pay.Withdrawals.Resolution.{SameLedger}
use pay.Sms.Rules.{OutgoingTransferSms}
use pay.Sms.Outgoing.{
  OutgoingMatch, matched_to, settle_match, settle_outgoing, books_before, with_late_case,
  is_failed_transfer, is_success, actual_provider_fee, mark_paid, pay_from_wallet, succeed_attempt,
}
use pay.Sms.Frames.{frame-succeed_attempt}

-- whether exactly one row is left
abbrev pub is_single {ℓ} : {V : Type ℓ} → List V → Bool
is_single [] = false
is_single (x ∷ []) = true
is_single (x ∷ y ∷ rest) = false

-- a case that is filed leaves the wallets and the transfers
noted-rows :
    (released : Bool) (id rid : ℕ) (t : Transfer) (db : Db)
    → ((with_late_case released id t rid db).sims ≡ db.sims)
      × ((with_late_case released id t rid db).transfers ≡ db.transfers)
noted-rows true id rid t db = (refl, refl)
noted-rows false id rid t db = (refl, refl)

module _ (now sim rid : ℕ) (m : OutgoingTransferSms) (occurred id : ℕ) (t : Transfer)
    (db db' : Db) where
  pub settle_outgoing-settles :
      (s : SimWallet)
      → find id db.transfers ≡ some t
      → find sim db.sims ≡ some s
      → settle_outgoing now sim rid m occurred id t db ≡ ok db'
      → (held : Books) × (b : Books) × (books_before (is_failed_transfer t.status) id t db.books
          ≡ ok held)
        × (settle_funds id t
              (actual_provider_fee m)
              (with_late_case
                (is_failed_transfer t.status)
                id
                t
                rid
                (record db { books = held })).books
            ≡ ok b)
        × SameLedger b db'.books
        × (find sim db'.sims
            ≡ some (pay_from_wallet now occurred m (is_failed_transfer t.status) t s))
        × (find id db'.transfers ≡ some (mark_paid now m t))
  unfolding settle_outgoing SameCore SameMoney SameLedger
  settle_outgoing-settles s row wallet h =
      let released = is_failed_transfer t.status in
      let (held, before, f) = >>=-eq-ok (books_before released id t db.books) _ h in
      let noted = with_late_case released id t rid (record db { books = held }) in
      let (b, settled, last) =
        >>=-eq-ok (settle_funds id t (actual_provider_fee m) noted.books) _ f in
      let paid = set_transfer id (mark_paid now m) (record noted {
        books = b;
        sims = modify sim (pay_from_wallet now occurred m released t) db.sims;
      }) in
      let credited = credit_treasury_if_internal t paid in
      let done = succeed_attempt now (latest_attempt id db.attempts) credited in
      let (books₁, sims₁, transfers₁) = frame-treasury t paid in
      let (books₂, sims₂, transfers₂, _, _, _) =
        frame-succeed_attempt now (latest_attempt id db.attempts) credited in
      let (books₃, sims₃, transfers₃, _, _) =
        frame-linked now id LinkedStatus.success
          (emit (transfer_event id TransferStatus.success) done) in
      let books = books₃ ∙ (books₂ ∙ books₁) in
      let (_, rows) = noted-rows released id rid t (record db { books = held }) in
      rw (← ok_injective last) (
        held,
        b,
        before,
        settled,
        (
          ap (λ (x : Books). x.accounts) books,
          ap (λ (x : Books). x.journals) books,
          ap (λ (x : Books). x.entries) books,
        ),
        ap (find sim) (sims₃ ∙ (sims₂ ∙ sims₁)) ∙ find-modify-some sim _ db.sims wallet,
        ap (find id) (transfers₃ ∙ (transfers₂ ∙ transfers₁))
            ∙ find-modify-some id _ noted.transfers (ap (find id) rows ∙ row),
      )

  -- the status and the provider id that make a second message of the payout a confirmation
  abbrev pub IsConfirmed : Transfer → Type 0
  IsConfirmed x =
      (is_success x.status && is_text x.provider_transaction_id m.provider_transaction_id) ≡ true

  -- the row that is left, settled before or now, is confirmed in the end
  pub settle_match-IsConfirmed :
      (rows : Table Transfer) (r : OutgoingMatch) (s : SimWallet)
      → find id db.transfers ≡ some t
      → find sim db.sims ≡ some s
      → settle_match now sim rid m occurred rows ((id, t) ∷ []) db ≡ ok (r, db')
      → (t' : Transfer) × (find id db'.transfers ≡ some t')
        × IsConfirmed t'
        × (t'.reference ≡ t.reference)
  unfolding settle_match
  settle_match-IsConfirmed rows r s row wallet h =
      elim (if-cases
        (is_success t.status && is_text t.provider_transaction_id m.provider_transaction_id)
        (ok (matched_to t, db))
        (settle_outgoing now sim rid m occurred id t db >>= λ x. ok (matched_to t, x)) (ok (r, db'))
        h) [
          | inl (done, same) ↦ (
            t,
            ap (λ (x : OutgoingMatch × Db). find id x.1.transfers) (sym (ok_injective same)) ∙ row,
            done,
            refl,
          )
          | inr (_, went) ↦
              let (x, settled, same) =
                >>=-eq-ok (settle_outgoing now sim rid m occurred id t db) _ went in
              let last : x ≡ db' = ap (λ (p : OutgoingMatch × Db). p.1) (ok_injective same) in
              let (_, _, _, _, _, _, end) =
                settle_outgoing-settles s row wallet (rw last at settled) in
              (
                mark_paid now m t,
                end,
                (str_eq_iff m.provider_transaction_id m.provider_transaction_id).1 refl,
                refl,
              )
        ]
