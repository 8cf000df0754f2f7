-- ===== src/Settlements/Dispatch.antt =====
-- apps/api/src/settlements/settlements.service.ts: one settlement is reviewed and dispatched once.
use Prim.Native.String.{String}
use pay.Shared.{
  ℕ, ◌+◌, ◌≤◌, ◌≡◌, refl, ap, ◌∙◌, subst, Option, none, some, some_injective, is_some, find, create,
  modify, find-modify-some, Result, ok, err, or_throw, >>=-eq-ok, ok_injective, invalid_state,
  &&-false,
}
use pay.Shared.Int.{pos, ◌+ℤ◌}
use pay.Ledger.{reserve_withdrawal}
use pay.Domain.{FinancialContext, live}
use pay.Store.{
  Db, Transfer, TransferStatus, SimWallet, DeviceJob, DeviceJobType, SettlementRequest,
  SettlementStatus, MerchantConfig,
}
use pay.Contracts.RoundTrip.{amount_to_minor-minor_to_amount}
use pay.Withdrawals.{
  TransferInput, QueueTransferOptions, queue_transfer, dispatch, enqueue_job, reserve_funds,
  new_transfer, reserve_on_sim, physical_reservation,
}
use pay.Withdrawals.Resolution.{status_of}
use pay.Withdrawals.Queueing.{IsWaiting, queue_transfer-reserves}
use pay.Settlements.Review.{
  approve, reject, dispatch_settlement, link_transfer, can_review_settlement, dispatched_as,
  reviewed, link, settlement_options, settlement_transfer, set_settlement, status_or_accepted,
}

-- a live transfer leaves the settlements as it is queued
queue_transfer-settlements :
    (now : ℕ) (auth : FinancialContext) (input : TransferInput) (options : QueueTransferOptions)
    (config : MerchantConfig) (provider_id : String) (sim : ℕ) (db db' : Db)
    → auth.environment ≡ live
    → queue_transfer now auth input options config provider_id (ok sim) db ≡ ok db'
    → db'.settlements ≡ db.settlements
unfolding queue_transfer dispatch enqueue_job
queue_transfer-settlements now auth input options config provider_id sim db db' is_live h =
    let t = new_transfer now auth input options config sim in
    let (b, _, f) = >>=-eq-ok (reserve_funds db.next_id t db.books) _ h in
    let held : Db = record db {
      books = b;
      transfers = create db.next_id t db.transfers;
      sims = modify sim (reserve_on_sim (physical_reservation t)) db.sims;
      next_id = db.next_id + 1;
    } in
    let sent =
      subst (λ e. dispatch now db.next_id t sim provider_id input options e held ≡ ok db') is_live
        f in
    let (x, queued, done) =
      >>=-eq-ok (enqueue_job now db.next_id t sim 1 options.priority none held) _ sent in
    let (s, _, last) = >>=-eq-ok (or_throw (find sim held.sims) _) _ queued in
    rw (← ok_injective done, ← ok_injective last) refl

status-queued :
    (o : Option Transfer)
    → status_of o ≡ some TransferStatus.queued
    → dispatched_as (status_or_accepted o) ≡ SettlementStatus.dispatched
unfolding dispatched_as
status-queued none h = refl
status-queued (some t) h = rw (some_injective h) refl

module _ (now id : ℕ) (id_text reason : String) (reviewer : ℕ) (config : MerchantConfig)
    (provider_id : String) (sim : ℕ) (db db' : Db) (s : SettlementRequest) (w : SimWallet) (n : ℕ)
    (row : find id db.settlements ≡ some s) (asked : s.status ≡ SettlementStatus.requested)
    (is_live : s.owner.environment ≡ live) (amount : s.amount_minor ≡ pos n) (more : 1 ≤ n)
    (wallet : find sim db.sims ≡ some w) where
  -- An approval of a requested live settlement reserves its amount, the fee reserve and the
  -- gateway fee from its own merchant. A new transfer waits in the queue with this amount for the
  -- settlement's payee, and so does a new job of the SIM's device for it, under the SIM's next
  -- fence. The settlement is `dispatched` and names the transfer and its reviewer. Approving it
  -- again, whoever does it, changes nothing, and it cannot be rejected any more.
  pub approve-dispatches_once :
      approve now id id_text reason reviewer config provider_id (ok sim) db ≡ ok db'
      → (reserve_withdrawal s.owner db.next_id
            (pos n +ℤ config.reserve_provider_fee_minor +ℤ config.gateway_fee_flat_minor)
            db.books
          ≡ ok db'.books)
        × ((t : Transfer) × (find db.next_id db'.transfers ≡ some t)
            × (t.status ≡ TransferStatus.queued)
            × (t.owner ≡ s.owner)
            × (t.sim_wallet_id ≡ some sim)
            × (t.destination_phone ≡ s.destination_phone)
            × (t.expected_name ≡ s.expected_name)
            × (t.amount_minor ≡ pos n))
        × ((j : DeviceJob) × (find (db.next_id + 1) db'.jobs ≡ some j)
            × (j.type ≡ DeviceJobType.merchant_settlement)
            × IsWaiting db.next_id sim w 1 none j)
        × (find id db'.settlements
            ≡ some (record s {
              transfer_id = some db.next_id;
              reviewed_by = some reviewer;
              review_reason = some reason;
              reviewed_at = some now;
              status = SettlementStatus.dispatched;
            }))
        × ((now' reviewer' : ℕ) (reason' provider_id' : String) (choice : Result ℕ)
            → approve now' id id_text reason' reviewer' config provider_id' choice db' ≡ ok db')
        × ((now' reviewer' : ℕ) (reason' : String)
            → reject now' id reason' reviewer' db' ≡ err invalid_state)
  unfolding approve reject dispatch_settlement link_transfer can_review_settlement
  approve-dispatches_once h =
      let marked = set_settlement id (reviewed SettlementStatus.approved now reviewer reason) db in
      let went =
        rw
          (
            row,
            asked,
            &&-false (is_some s.transfer_id),
            amount,
            amount_to_minor-minor_to_amount n more,
          )
          at h in
      let (x, queued, done) =
        >>=-eq-ok
          (queue_transfer now s.owner (settlement_transfer id_text s (pos n)) settlement_options
            config provider_id (ok sim) marked)
          _ went in
      let (reserved, _, (t, paid, ordered), (j, waits, kind, _, waiting)) =
        queue_transfer-reserves now s.owner (settlement_transfer id_text s (pos n))
          settlement_options config provider_id sim marked x w is_live wallet queued in
      let settlements =
        queue_transfer-settlements now s.owner (settlement_transfer id_text s (pos n))
          settlement_options config provider_id sim marked x is_live queued in
      let linked : find id db'.settlements
          ≡ some (
              link db.next_id SettlementStatus.dispatched
                (reviewed SettlementStatus.approved now reviewer reason s)) =
        rw
          (
            ← ok_injective done,
            status-queued (find db.next_id x.transfers) (ap status_of paid ∙ ap some ordered.0),
          )
          (find-modify-some id (link db.next_id SettlementStatus.dispatched) x.settlements
            (ap (find id) settlements ∙ find-modify-some id _ db.settlements row)) in
      (
        reserved ∙ ap (λ (y : Db). ok y.books) (ok_injective done),
        (
          t,
          subst (λ (y : Db). find db.next_id y.transfers ≡ some t) (ok_injective done) paid,
          ordered.0,
          ordered.1,
          ordered.2,
          ordered.3,
          ordered.4,
          ordered.5,
        ),
        (
          j,
          subst (λ (y : Db). find (db.next_id + 1) y.jobs ≡ some j) (ok_injective done) waits,
          kind,
          waiting,
        ),
        linked,
        λ now' reviewer' reason' provider_id' choice. rw linked refl,
        λ now' reviewer' reason'. rw linked refl,
      )
