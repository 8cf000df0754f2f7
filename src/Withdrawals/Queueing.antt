-- ===== src/Withdrawals/Queueing.antt =====
-- apps/api/src/withdrawals/withdrawals.service.ts: what a queued live transfer holds, and what a retry
-- after a name review leaves alone.
use Prim.Native.String.{String}
use pay.Shared.{
  ℕ, ◌+◌, ◌≡◌, refl, sym, ap, subst, ◌∙◌, Option, none, some, find, modify, create,
  find-modify-some, find-create_self, Result, ok, or_throw, >>=-eq-ok, or_throw-eq-ok, ok_injective,
  some_injective,
}
use pay.Domain.{FinancialContext, live}
use pay.Shared.Int.{ℤ, ◌+ℤ◌}
use pay.Ledger.{Books, reserve_withdrawal, reserve_internal_move_fee}
use pay.Store.{
  MerchantConfig, Db, Transfer, TransferStatus, SimWallet, DeviceJob, DeviceJobState, FinancialMode,
  merchant_debit, internal_move,
}
use pay.Withdrawals.Funds.{physical_reservation}
use pay.Withdrawals.Queue.{
  TransferInput, QueueTransferOptions, new_transfer, reserve_funds, reserve_on_sim, next_fence,
  new_job, enqueue_job, dispatch, queue_transfer, gateway_fee,
}

-- one job under a new fence of the SIM; everything but the SIM, the job and the attempt stays
enqueued :
    (now id : ℕ) (t : Transfer) (sim number priority : ℕ) (name : Option String) (db db' : Db)
    (s : SimWallet)
    → find sim db.sims ≡ some s
    → enqueue_job now id t sim number priority name db ≡ ok db'
    → (db'.books ≡ db.books)
      × (db'.transfers ≡ db.transfers)
      × (find sim db'.sims ≡ some (next_fence s))
      × (find db.next_id db'.jobs
          ≡ some (new_job now id t sim (s.next_fencing_token + 1) s number priority name))
unfolding enqueue_job
enqueued now id t sim number priority name db db' s row h =
    let (s', at, done) = >>=-eq-ok (or_throw (find sim db.sims) _) _ h in
    let same = some_injective (sym row ∙ or_throw-eq-ok _ _ at) in
    rw (← ok_injective done, same)
      (
        refl,
        refl,
        find-modify-some sim next_fence db.sims (rw (sym same) row),
        find-create_self db.next_id _ db.jobs,
      )

-- The job waits in the queue of the SIM's device for this attempt of the transfer, under the fence
-- that follows the SIM's, free of any lease and with the given approved name.
abbrev pub IsWaiting : ℕ → ℕ → SimWallet → ℕ → Option String → DeviceJob → Type 0
IsWaiting transfer_id sim s attempt approved j =
    (j.state ≡ DeviceJobState.queued)
    × (j.transfer_id ≡ some transfer_id)
    × (j.sim_wallet_id ≡ sim)
    × (j.device_id ≡ some s.device_id)
    × (j.fencing_token ≡ s.next_fencing_token + 1)
    × (j.attempt ≡ attempt)
    × (j.approved_provider_name ≡ approved)
    × (j.lease_owner ≡ none)
    × (j.committed_at ≡ none)

-- The transfer waits in the queue, and it pays this amount from this SIM to the number and the
-- name of the request.
abbrev pub IsOrdered : FinancialContext → TransferInput → MerchantConfig → ℕ → Transfer → Type 0
IsOrdered auth input config sim t =
    (t.status ≡ TransferStatus.queued)
    × (t.owner ≡ auth)
    × (t.sim_wallet_id ≡ some sim)
    × (t.destination_phone ≡ input.account_number)
    × (t.expected_name ≡ input.expected_name)
    × (t.amount_minor ≡ input.amount_minor)
    × (t.reserve_provider_fee_minor ≡ config.reserve_provider_fee_minor)
    × (t.provider_transaction_id ≡ none)
    × (t.committed_at ≡ none)

reserve_by_mode :
    (mode : FinancialMode) (auth : FinancialContext) (config : MerchantConfig) (id : ℕ)
    (amount fee : ℤ) (b b' : Books)
    → elim mode as (λ _. Books → Result Books) [
      | merchant_debit ↦ reserve_withdrawal auth id (amount +ℤ fee +ℤ gateway_fee mode config)
      | internal_move ↦ reserve_internal_move_fee auth id fee
    ]
        b
      ≡ ok b'
    → elim mode [
      | merchant_debit ↦
          reserve_withdrawal auth id (amount +ℤ fee +ℤ config.gateway_fee_flat_minor) b
      | internal_move ↦ reserve_internal_move_fee auth id fee b
    ]
      ≡ ok b'
reserve_by_mode merchant_debit auth config id amount fee b b' h = h
reserve_by_mode internal_move auth config id amount fee b b' h = h

-- A live transfer that is queued holds what it may cost in both places. The ledger reserves the
-- amount, the fee reserve and the gateway fee for a merchant's payout, and the fee reserve alone
-- for an internal move; of the SIM only the reserved balance, by the amount and the fee reserve,
-- and the fencing token, by one, have risen. The new transfer is `queued` with the amount, the
-- payee and the owner of the request, and one new unleased job of the SIM's device waits for its
-- first attempt under the SIM's next fence.
pub queue_transfer-reserves :
    (now : ℕ) (auth : FinancialContext) (input : TransferInput) (options : QueueTransferOptions)
    (config : MerchantConfig) (provider_id : String) (sim : ℕ) (db db' : Db) (s : SimWallet)
    → auth.environment ≡ live
    → find sim db.sims ≡ some s
    → queue_transfer now auth input options config provider_id (ok sim) db ≡ ok db'
    → (elim options.financial_mode [
      | merchant_debit ↦
          reserve_withdrawal auth db.next_id
            (input.amount_minor +ℤ config.reserve_provider_fee_minor
              +ℤ config.gateway_fee_flat_minor)
            db.books
      | internal_move ↦
          reserve_internal_move_fee auth db.next_id config.reserve_provider_fee_minor db.books
    ]
        ≡ ok db'.books)
      × (find sim db'.sims
          ≡ some (record s {
            reserved_balance_minor =
                s.reserved_balance_minor
                +ℤ (input.amount_minor +ℤ config.reserve_provider_fee_minor);
            next_fencing_token = s.next_fencing_token + 1;
          }))
      × ((t : Transfer) × (find db.next_id db'.transfers ≡ some t)
          × IsOrdered auth input config sim t)
      × ((j : DeviceJob) × (find (db.next_id + 1) db'.jobs ≡ some j)
          × (j.type ≡ options.operation_kind)
          × (j.priority ≡ options.priority)
          × IsWaiting db.next_id sim s 1 none j)
unfolding queue_transfer dispatch reserve_funds
queue_transfer-reserves now auth input options config provider_id sim db db' s is_live row h =
    let t = new_transfer now auth input options config sim in
    let (b, reserved, f) = >>=-eq-ok (reserve_funds db.next_id t db.books) _ h in
    let held : Db = record db {
      books = b;
      transfers = create db.next_id t db.transfers;
      sims = modify sim (reserve_on_sim (physical_reservation t)) db.sims;
      next_id = db.next_id + 1;
    } in
    let sent =
      subst (λ e. dispatch now db.next_id t sim provider_id input options e held ≡ ok db') is_live
        f in
    let (x, queued, done) =
      >>=-eq-ok (enqueue_job now db.next_id t sim 1 options.priority none held) _ sent in
    let (books, transfers, sims, jobs) =
      enqueued now db.next_id t sim 1 options.priority none held x
        (reserve_on_sim (physical_reservation t) s) (find-modify-some sim _ db.sims row) queued in
    rw (← ok_injective done) (
      reserve_by_mode options.financial_mode auth config db.next_id input.amount_minor
            config.reserve_provider_fee_minor db.books b reserved
          ∙ ap ok (sym books),
      sims,
      (
        _,
        find-modify-some db.next_id _ x.transfers
            (ap (find db.next_id) transfers ∙ find-create_self db.next_id t db.transfers),
        (refl, refl, refl, refl, refl, refl, refl, refl, refl),
      ),
      (_, jobs, refl, refl, (refl, refl, refl, refl, refl, refl, refl, refl, refl)),
    )
