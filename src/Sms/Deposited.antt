-- ===== src/Sms/Deposited.antt =====
-- apps/api/src/sms/sms-ingestion.service.ts: where the money of an incoming message goes.
use Prim.Native.String.{String}
use pay.Shared.{
  ◌⊎◌, any, if◌then◌else◌, ◌∙◌, ℕ, ◌≤◌, ◌≡◌, refl, sym, ap, subst, true, false, Option, none, some,
  [], ◌∷◌, ◌==◌, All, Table, find, find-modify-some, Result, ok, err, ◌>>=◌, >>=-eq-ok,
  ok_injective, &&-both, leb, leb→le, ==_iff,
}
use pay.Shared.Int.{◌≤ℤ◌, leb_ℤ}
use pay.Shared.Sorting.{filter, All-filter, All-sort, filter-keeps, take-keeps}
use pay.Domain.{NameDecision, FinancialContext, live}
use pay.Ledger.{Books, credit_deposit, move_receipt_to_suspense}
use pay.Store.{Db, DepositIntent, DepositStatus, MerchantConfig, SimWallet}
use pay.Withdrawals.Resolution.{SameLedger}
use pay.Sms.Rules.{
  IncomingTransferSms, deposit_status_allows_provider_time_match, is_open_for_provider_time,
}
use pay.Sms.Incoming.{
  match_incoming, settle_incoming, credit_match, suspend_receipt, suspense_owner, receive_into,
  review_all, paid_by, strong_deposits, strong_deposit_match, payable_deposits, is_payable_row,
  is_potential, is_newer_deposit, difference, tolerance_of, is_matching, is_payable,
}
use pay.Sms.Settling.{is_single}
use pay.Sms.Amounts.{IsReceived, receive_into-IsReceived, suspense_owner-cases, find-review_all}

is_matching-matching : (n : NameDecision) → is_matching n ≡ true → n ≡ NameDecision.matching
is_matching-matching NameDecision.matching h = refl
is_matching-matching NameDecision.uncertain h = cc
is_matching-matching NameDecision.mismatch h = cc

payable-All :
    (sim occurred : ℕ) (deposits : Table DepositIntent)
    → All (λ x. is_payable_row sim occurred x ≡ true) (payable_deposits sim occurred deposits)
unfolding payable_deposits
payable-All sim occurred deposits =
    let P : ℕ × DepositIntent → Type 0 = λ x. is_payable_row sim occurred x ≡ true in
    take-keeps P 200 _
      (All-sort P is_newer_deposit _ (All-filter (is_payable_row sim occurred) deposits))

module _ (compare_person_names : String → String → NameDecision) (sim : ℕ) (m : IncomingTransferSms)
    (occurred : ℕ) where
  -- the deposit was made on this SIM, is paid in time, and its amount and its customer's name fit
  abbrev pub IsPaidBy : Table MerchantConfig → DepositIntent → Type 0
  IsPaidBy configs d =
      (d.sim_wallet_id ≡ sim)
      × (d.created_at ≤ occurred)
      × (occurred ≤ d.late_grace_ends_at)
      × (difference d.amount_minor m.amount_minor
          ≤ℤ tolerance_of (find d.owner.merchant_id configs))
      × (compare_person_names d.customer_name m.sender_name ≡ NameDecision.matching)

  strong-IsPaidBy :
      (configs : Table MerchantConfig) (id : ℕ) (d : DepositIntent)
      → is_payable_row sim occurred (id, d) ≡ true
      → strong_deposit_match compare_person_names configs m occurred (id, d) ≡ true
      → IsPaidBy configs d
  unfolding is_payable_row strong_deposit_match deposit_status_allows_provider_time_match
  strong-IsPaidBy configs id d payable strong =
      let (here, later) = &&-both (d.sim_wallet_id == sim) _ payable in
      let (_, created) = &&-both (is_payable d.status) _ later in
      let (_, fits) = &&-both (is_potential m (id, d)) _ strong in
      let (timely, rest) =
        &&-both
          (deposit_status_allows_provider_time_match d.status d.created_at d.late_grace_ends_at
            occurred)
          _ fits in
      let (_, window) = &&-both (is_open_for_provider_time d.status) _ timely in
      let (_, ends) = &&-both (leb d.created_at occurred) _ window in
      let (amount, name) =
        &&-both
          (leb_ℤ (difference d.amount_minor m.amount_minor)
            (tolerance_of (find d.owner.merchant_id configs)))
          _ rest in
      (
        (==_iff d.sim_wallet_id sim).0 here,
        leb→le _ _ created,
        leb→le _ _ ends,
        leb→le _ _ amount,
        is_matching-matching _ name,
      )

  suspend_receipt-suspends :
      (system now rid : ℕ) (potential strong : Table DepositIntent) (db db' : Db) (s : SimWallet)
      → find sim db.sims ≡ some s
      → suspend_receipt system now sim rid m occurred potential strong db ≡ ok db'
      → (b : Books) × (move_receipt_to_suspense
            (suspense_owner system potential)
            rid
            m.amount_minor
            db.books
          ≡ ok b)
        × SameLedger b db'.books
        × (db'.deposits ≡ review_all strong db.deposits)
        × (find sim db'.sims ≡ some (receive_into now occurred m s))
  unfolding suspend_receipt SameLedger
  suspend_receipt-suspends system now rid potential strong db db' s wallet h =
      let (b, moved, last) =
        >>=-eq-ok
          (move_receipt_to_suspense (suspense_owner system potential) rid m.amount_minor db.books) _
          h in
      rw (← ok_injective last) (
        b,
        moved,
        (refl, refl, refl),
        refl,
        find-modify-some sim (receive_into now occurred m) db.sims wallet,
      )

  finish-none :
      (step : Result Db) (db' : Db) (r : Option String)
      → ◌>>=◌ {Next = Option String × Db} step (λ x. ok (none, x)) ≡ ok (r, db')
      → (r ≡ none) × (step ≡ ok db')
  finish-none (ok x) db' r h =
      let same = ok_injective h in
      (
        ap (λ (p : Option String × Db). p.0) (sym same),
        ap (λ (p : Option String × Db). ok p.1) same,
      )
  finish-none (err e) db' r h = cc

  settle_incoming-suspends :
      (system now rid : ℕ) (potential strong : Table DepositIntent) (db db' : Db)
      (r : Option String)
      → is_single strong ≡ false
      → settle_incoming system now sim rid m occurred potential strong db ≡ ok (r, db')
      → (r ≡ none) × (suspend_receipt system now sim rid m occurred potential strong db ≡ ok db')
  unfolding settle_incoming
  settle_incoming-suspends system now rid potential [] db db' r many h =
      finish-none (suspend_receipt system now sim rid m occurred potential [] db) db' r h
  settle_incoming-suspends system now rid potential ((i, d) ∷ []) db db' r many h = cc
  settle_incoming-suspends system now rid potential (x ∷ y ∷ rest) db db' r many h =
      finish-none (suspend_receipt system now sim rid m occurred potential (x ∷ y ∷ rest) db) db' r
        h

  module _ (system now rid : ℕ) (db db' : Db) (r : Option String) where
    -- An incoming message that pays exactly one deposit credits its amount to the owner of that
    -- deposit, and to nobody else. The deposit was made on the SIM that received the message, the
    -- payment lies between its creation and the end of its grace, its amount is within the
    -- merchant's tolerance and the names match. It ends as `success` with the message's amount as
    -- the credited one, the receipt and the provider's transaction id. The SIM's wallet has received
    -- the amount, and its reserved balance stays.
    pub match_incoming-credits :
        (id : ℕ) (d : DepositIntent) (s : SimWallet)
        → find id db.deposits ≡ some d
        → find sim db.sims ≡ some s
        → strong_deposits compare_person_names sim m occurred db ≡ (id, d) ∷ []
        → match_incoming compare_person_names system now sim rid m occurred db ≡ ok (r, db')
        → (r ≡ some d.tx_ref)
          × IsPaidBy db.merchant_configs d
          × (credit_deposit d.owner id m.amount_minor db.books ≡ ok db'.books)
          × (find id db'.deposits
              ≡ some (record d {
                status = DepositStatus.success;
                credited_amount_minor = some m.amount_minor;
                matched_receipt_id = some rid;
                provider_transaction_id = some m.provider_transaction_id;
              }))
          × ((s' : SimWallet) × (find sim db'.sims ≡ some s') × IsReceived now occurred m s s')
    unfolding match_incoming settle_incoming credit_match strong_deposits
    match_incoming-credits id d s row wallet only h =
        let (x, went, same) =
          >>=-eq-ok (credit_match now sim rid m occurred id d db) _ (rw only at h) in
        let end = ok_injective same in
        let (b, credited, last) =
          >>=-eq-ok (credit_deposit d.owner id m.amount_minor db.books) _ went in
        let payable = payable_deposits sim occurred db.deposits in
        let test = strong_deposit_match compare_person_names db.merchant_configs m occurred in
        let fit : All (λ x. test x ≡ true) ((id, d) ∷ []) =
          subst (All (λ x. test x ≡ true)) only (All-filter test payable) in
        let kept : All (λ x. is_payable_row sim occurred x ≡ true) ((id, d) ∷ []) =
          subst (All (λ x. is_payable_row sim occurred x ≡ true)) only (
            filter-keeps (λ x. is_payable_row sim occurred x ≡ true) test payable
              (payable-All sim occurred db.deposits)) in
        rw (← (ap (λ (p : Option String × Db). p.1) end), ← ok_injective last)
          (
            sym (ap (λ (p : Option String × Db). p.0) end),
            strong-IsPaidBy db.merchant_configs id d kept.0 fit.0,
            credited,
            find-modify-some id (paid_by rid m) db.deposits row,
            (
              receive_into now occurred m s,
              find-modify-some sim (receive_into now occurred m) db.sims wallet,
              receive_into-IsReceived now occurred m s,
            ),
          )

    -- An incoming message that pays no deposit, or more than one, credits no deposit: its amount is
    -- moved into suspense, either the system's or that of the owner of every deposit that its sender
    -- may mean. The SIM's wallet receives the amount, and its reserved balance stays. Every deposit
    -- that the message would have paid is in manual review, and every other deposit is unchanged, so
    -- that a message that pays none changes none.
    pub match_incoming-suspends :
        (s : SimWallet) (id : ℕ) (d : DepositIntent)
        → find sim db.sims ≡ some s
        → find id db.deposits ≡ some d
        → is_single (strong_deposits compare_person_names sim m occurred db) ≡ false
        → match_incoming compare_person_names system now sim rid m occurred db ≡ ok (r, db')
        → (r ≡ none)
          × ((o : FinancialContext) × (b : Books) × (move_receipt_to_suspense o rid m.amount_minor
                  db.books
                ≡ ok b)
              × SameLedger b db'.books
              × ((o ≡ record { merchant_id = system; environment = live })
                  ⊎ All
                      (λ x. o ≡ x.1.owner)
                      (filter (is_potential m) (payable_deposits sim occurred db.deposits))))
          × (find id db'.deposits
              ≡ some (
                  if any (λ x. x.0 == id) (strong_deposits compare_person_names sim m occurred db)
                  then record d { status = DepositStatus.manual_review }
                  else d))
          × ((s' : SimWallet) × (find sim db'.sims ≡ some s') × IsReceived now occurred m s s')
    unfolding match_incoming
    match_incoming-suspends s id d wallet row many h =
        let potential = filter (is_potential m) (payable_deposits sim occurred db.deposits) in
        let strong = strong_deposits compare_person_names sim m occurred db in
        let (none_matched, suspended) =
          settle_incoming-suspends system now rid potential strong db db' r many h in
        let (b, moved, ledger, deposits, sims) =
          suspend_receipt-suspends system now rid potential strong db db' s wallet suspended in
        (
          none_matched,
          (
            suspense_owner system potential,
            b,
            moved,
            ledger,
            suspense_owner-cases system potential,
          ),
          ap (find id) deposits ∙ find-review_all strong db.deposits id d row,
          (receive_into now occurred m s, sims, receive_into-IsReceived now occurred m s),
        )
