-- ===== src/Sms/Incoming.antt =====
-- apps/api/src/sms/sms-ingestion.service.ts: `matchIncoming`. The money of an incoming message goes
-- to the one deposit that it pays, or into suspense.
use Prim.Native.String.{String}
use pay.Shared.{
  ℕ, Bool, true, false, ◌&&◌, Option, none, some, [], ◌∷◌, ◌==◌, ltb, leb, if◌then◌else◌, Table,
  find, modify, Result, ok, ◌>>=◌,
}
use pay.Shared.Int.{ℤ, pos, ◌-ℤ◌, ltb_ℤ, leb_ℤ}
use pay.Shared.Sorting.{filter, take, sort}
use pay.Domain.{FinancialContext, live, same_owner, NameDecision, CaseType, candidates}
use pay.Ledger.{credit_deposit, move_receipt_to_suspense}
use pay.Store.{
  TransferStatus, Db, DepositIntent, DepositStatus, MerchantConfig, SimWallet, OutboxEvent,
  CoarseStatus, AggregateType,
}
use pay.Parsers.Phone.{codes, matches_masked_ethiopian_phone}
use pay.Withdrawals.{emit}
use pay.Sms.Rules.{
  IncomingTransferSms, transaction_balance_mutation, increment,
  deposit_status_allows_provider_time_match,
}
use pay.Sms.Wallet.{update_wallet_counters, with_case, ids_of}

-- the `where` of the deposits that a message can pay
abbrev pub is_payable : DepositStatus → Bool
is_payable DepositStatus.awaiting_payment = true
is_payable DepositStatus.late_grace = true
is_payable DepositStatus.matching = true
is_payable DepositStatus.manual_review = true
is_payable DepositStatus.expired = true
is_payable _ = false

unfoldable pub is_payable_row : (sim occurred_at : ℕ) → ℕ × DepositIntent → Bool
is_payable_row sim occurred (_, d) =
    (d.sim_wallet_id == sim) && (is_payable d.status && leb d.created_at occurred)

abbrev pub is_newer_deposit : ℕ × DepositIntent → ℕ × DepositIntent → Bool
is_newer_deposit y x = ltb x.1.created_at y.1.created_at

-- the newest 200 deposits of the SIM that the message can pay
unfoldable pub payable_deposits : (sim occurred_at : ℕ) → Table DepositIntent → Table DepositIntent
payable_deposits sim occurred deposits =
    take 200 (sort is_newer_deposit (filter (is_payable_row sim occurred) deposits))

abbrev pub is_matching : NameDecision → Bool
is_matching NameDecision.matching = true
is_matching _ = false

-- `merchant.config?.wrongAmountToleranceMinor ?? 0n`
abbrev pub tolerance_of : Option MerchantConfig → ℤ
tolerance_of none = pos 0
tolerance_of (some c) = c.wrong_amount_tolerance_minor

abbrev pub difference : ℤ → ℤ → ℤ
difference a b = if ltb_ℤ b a then a -ℤ b else b -ℤ a

-- the sender's masked number can be the customer's
unfoldable pub is_potential : IncomingTransferSms → ℕ × DepositIntent → Bool
is_potential m (_, d) =
    matches_masked_ethiopian_phone (codes d.customer_phone) (codes m.sender_phone_prefix)
      (codes m.sender_phone_suffix)

-- whether all the rows have the owner
unfoldable pub all_owned_by : FinancialContext → Table DepositIntent → Bool
all_owned_by o [] = true
all_owned_by o ((_, d) ∷ rest) = same_owner o d.owner && all_owned_by o rest

-- the only owner of the potential deposits, or else the system's suspense merchant
unfoldable pub suspense_owner : (system : ℕ) → (potential : Table DepositIntent) → FinancialContext
unfolding all_owned_by
suspense_owner system [] = record { merchant_id = system; environment = live }
suspense_owner system ((_, d) ∷ rest) =
    if all_owned_by d.owner rest
    then d.owner
    else record { merchant_id = system; environment = live }

abbrev pub receive_into : (now occurred_at : ℕ) → IncomingTransferSms → SimWallet → SimWallet
receive_into now occurred m =
    update_wallet_counters now (pos 0) m.amount_minor
      (transaction_balance_mutation occurred m.current_main_balance_minor m.amount_minor increment)

abbrev pub review : DepositIntent → DepositIntent
review d = record d { status = DepositStatus.manual_review }

-- `updateMany({ where: { id: { in } }, data: { status: 'manual_review' } })`
unfoldable pub review_all : Table DepositIntent → Table DepositIntent → Table DepositIntent
review_all [] deposits = deposits
review_all ((id, _) ∷ rest) deposits = review_all rest (modify id review deposits)

abbrev pub suspense_case : Table DepositIntent → CaseType
suspense_case [] = CaseType.unmatched_deposit
suspense_case (d ∷ ds) = CaseType.ambiguous_deposit

abbrev merchant_of_first : Table DepositIntent → Option ℕ
merchant_of_first [] = none
merchant_of_first ((_, d) ∷ ds) = some d.owner.merchant_id

-- no deposit, or more than one, is paid by the message
unfoldable pub suspend_receipt :
    (system now sim receipt_id : ℕ)
    → IncomingTransferSms
    → (occurred_at : ℕ) → (potential strong : Table DepositIntent) → Db
    → Result Db
suspend_receipt system now sim receipt_id m occurred potential strong db = do
  books' ←
      move_receipt_to_suspense (suspense_owner system potential) receipt_id m.amount_minor db.books
  ok (
      with_case (merchant_of_first strong) (suspense_case strong) receipt_id
        (candidates (ids_of potential))
        (record db {
          books = books';
          sims = modify sim (receive_into now occurred m) db.sims;
          deposits = review_all strong db.deposits;
        }))

abbrev pub paid_by : (receipt_id : ℕ) → IncomingTransferSms → DepositIntent → DepositIntent
paid_by receipt_id m d = record d {
  status = DepositStatus.success;
  credited_amount_minor = some m.amount_minor;
  matched_receipt_id = some receipt_id;
  provider_transaction_id = some m.provider_transaction_id;
}

abbrev pub deposit_event : ℕ → OutboxEvent
deposit_event id = record {
  aggregate_type = AggregateType.deposit;
  aggregate_id = id;
  status = CoarseStatus.success;
  p2p_status = some TransferStatus.success;
}

-- exactly one deposit is paid by the message
unfoldable pub credit_match :
    (now sim receipt_id : ℕ)
    → IncomingTransferSms
    → (occurred_at : ℕ) → (id : ℕ) → DepositIntent
    → Db
    → Result Db
credit_match now sim receipt_id m occurred id d db = do
  books' ← credit_deposit d.owner id m.amount_minor db.books
  ok (
      emit (deposit_event id) (record db {
        books = books';
        deposits = modify id (paid_by receipt_id m) db.deposits;
        sims = modify sim (receive_into now occurred m) db.sims;
      }))

-- by the deposits that the message pays; the result is the reference of the one that was credited
unfoldable pub settle_incoming :
    (system now sim receipt_id : ℕ)
    → IncomingTransferSms
    → (occurred_at : ℕ) → (potential strong : Table DepositIntent) → Db
    → Result (Option String × Db)
settle_incoming system now sim receipt_id m occurred potential [] db =
    suspend_receipt system now sim receipt_id m occurred potential [] db >>= λ db'. ok (none, db')
settle_incoming system now sim receipt_id m occurred potential ((id, d) ∷ []) db =
    credit_match now sim receipt_id m occurred id d db >>= λ db'. ok (some d.tx_ref, db')
settle_incoming system now sim receipt_id m occurred potential (x ∷ y ∷ rest) db =
    suspend_receipt system now sim receipt_id m occurred potential (x ∷ y ∷ rest) db >>= λ db'.
    ok (none, db')

-- `comparePersonNames`, its decision
module _ (compare_person_names : String → String → NameDecision) where
  -- `strongDepositMatch`
  unfoldable pub strong_deposit_match :
      Table MerchantConfig → IncomingTransferSms → (occurred_at : ℕ) → ℕ × DepositIntent → Bool
  strong_deposit_match configs m occurred (id, d) =
      is_potential m (id, d)
      && (deposit_status_allows_provider_time_match d.status d.created_at d.late_grace_ends_at
            occurred
          && (leb_ℤ (difference d.amount_minor m.amount_minor)
                (tolerance_of (find d.owner.merchant_id configs))
              && is_matching (compare_person_names d.customer_name m.sender_name)))

  unfoldable pub strong_deposits :
      (sim : ℕ) → IncomingTransferSms → (occurred_at : ℕ) → Db → Table DepositIntent
  strong_deposits sim m occurred db =
      filter (strong_deposit_match db.merchant_configs m occurred)
        (payable_deposits sim occurred db.deposits)

  -- `matchIncoming`
  unfoldable pub match_incoming :
      (system now sim receipt_id : ℕ)
      → IncomingTransferSms
      → (occurred_at : ℕ) → Db
      → Result (Option String × Db)
  match_incoming system now sim receipt_id m occurred db =
      settle_incoming system now sim receipt_id m occurred
        (filter (is_potential m) (payable_deposits sim occurred db.deposits))
        (strong_deposits sim m occurred db) db
