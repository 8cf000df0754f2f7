-- ===== src/Withdrawals/Resolution.antt =====
-- apps/api/src/withdrawals/withdrawals.service.ts: what a manual resolution does to the money, on
-- both of its branches.
use Prim.Native.String.{String}
use pay.Shared.{
  ℕ, ◌≡◌, refl, ap, ◌∙◌, Bool, true, false, not, ◌&&◌, Option, none, some, find, modify,
  find-modify-some, ok, or_throw, require, >>=-eq-ok, require-eq-ok, or_throw-eq-ok, ok_injective,
  is_some, str_eq,
}
use pay.Shared.Int.{◌+ℤ◌}
use pay.Ledger.{Books}
use pay.Store.{
  Db, Transfer, TransferStatus, SimWallet, DeviceJobState, AttemptOutcome, TransferAttempt,
  OutboxEvent,
}
use pay.Withdrawals.Funds.{
  release_funds, settle_funds, physical_reservation, release_sim, set_transfer, latest_attempt,
  unreserve, LinkedStatus, update_linked_operation, emit, transfer_event,
}
use pay.Withdrawals.Simulator.{credit_treasury_if_internal}
use pay.Withdrawals.Resolve.{
  ResolveInput, resolve_success, resolve_failed, resolve_wallet, receipt_already_applied,
  receipt_of, mark_proven, finish_attempt, finish_manual_resolution,
}
use pay.Withdrawals.Frames.{SameCore, SameMoney, frame-linked, frame-finish_attempt, frame-treasury}

-- The ledger's accounts, journals and entries; reconciliation cases aside.
unfoldable pub SameLedger : Books → Books → Type 0
SameLedger a b = (b.accounts ≡ a.accounts) × (b.journals ≡ a.journals) × (b.entries ≡ a.entries)

abbrev pub status_of : Option Transfer → Option TransferStatus
status_of none = none
status_of (some t) = some t.status

pub not-true : (b : Bool) → not b ≡ true → b ≡ false
not-true false h = refl
not-true true h = cc

SameLedger-of : (a b c : Books) → b ≡ a → SameLedger b c → SameLedger a c
SameLedger-of a b c e l = rw (← e) l

tail-frame :
    (now id actor : ℕ) (reason : String) (state : DeviceJobState) (outcome : AttemptOutcome)
    (code : Option String) (o : Option (ℕ × TransferAttempt)) (link : LinkedStatus)
    (event : OutboxEvent) (db : Db)
    → let x = emit event (
        update_linked_operation now id link (
          finish_manual_resolution id actor reason (finish_attempt now state outcome code o db))) in
      SameLedger db.books x.books × (x.sims ≡ db.sims) × (x.transfers ≡ db.transfers)
unfolding SameCore SameMoney SameLedger finish_manual_resolution
tail-frame now id actor reason state outcome code o link event db =
    let done = finish_attempt now state outcome code o db in
    let (books₁, sims₁, transfers₁) = frame-finish_attempt now state outcome code o db in
    let (books₂, sims₂, transfers₂, _, _) =
      frame-linked now id link (finish_manual_resolution id actor reason done) in
    (
      (
        ap (λ (x : Books). x.accounts) books₂ ∙ ap (λ (x : Books). x.accounts) books₁,
        ap (λ (x : Books). x.journals) books₂ ∙ ap (λ (x : Books). x.journals) books₁,
        ap (λ (x : Books). x.entries) books₂ ∙ ap (λ (x : Books). x.entries) books₁,
      ),
      sims₂ ∙ sims₁,
      transfers₂ ∙ transfers₁,
    )

module _ (now id : ℕ) (input : ResolveInput) (actor sim : ℕ) (db db' : Db) (t : Transfer)
    (s : SimWallet) (row : find id db.transfers ≡ some t) (wallet : find sim db.sims ≡ some s) where
  pub resolve_failed-releases :
      resolve_failed now id input actor t sim db ≡ ok db'
      → (b : Books) × (release_funds id t db.books ≡ ok b)
        × SameLedger b db'.books
        × (find sim db'.sims ≡ some (unreserve (physical_reservation t) s))
        × (status_of (find id db'.transfers) ≡ some TransferStatus.failed)
  unfolding resolve_failed
  resolve_failed-releases h =
      let (b, released, last) = >>=-eq-ok (release_funds id t db.books) _ h in
      let freed = release_sim (some sim) (physical_reservation t) (record db { books = b }) in
      let (ledger, sims, transfers) =
        tail-frame now id actor input.reason DeviceJobState.failed AttemptOutcome.failed
          (some "MANUALLY_PROVEN_FAILED") (latest_attempt id db.attempts) LinkedStatus.failed
          (transfer_event id TransferStatus.failed)
          (set_transfer id
            (λ (r : Transfer). record r { status = TransferStatus.failed; completed_at = some now })
            freed) in
      rw (← ok_injective last) (
        b,
        released,
        ledger,
        ap (find sim) sims ∙ find-modify-some sim _ db.sims wallet,
        ap status_of (ap (find id) transfers ∙ find-modify-some id _ db.transfers row),
      )

  pub resolve_success-settles :
      resolve_success now id input actor t sim db ≡ ok db'
      → (provider_id : String) × (b : Books) × (input.provider_transaction_id ≡ some provider_id)
        × ((is_some (receipt_of provider_id db)
              && not (receipt_already_applied t (receipt_of provider_id db) provider_id))
            ≡ false)
        × (settle_funds id t (input.service_fee_minor +ℤ input.vat_minor) db.books ≡ ok b)
        × SameLedger b db'.books
        × (find sim db'.sims
            ≡ some (
                resolve_wallet now t
                  (input.service_fee_minor +ℤ input.vat_minor)
                  (receipt_already_applied t (receipt_of provider_id db) provider_id)
                  input.current_main_balance_minor
                  s))
        × (status_of (find id db'.transfers) ≡ some TransferStatus.success)
  unfolding resolve_success SameMoney
  resolve_success-settles h =
      let (provider_id, given_id, f) = >>=-eq-ok (or_throw input.provider_transaction_id _) _ h in
      let (_, _, g) = >>=-eq-ok (require (not (str_eq provider_id "")) _) _ f in
      let receipt = receipt_of provider_id db in
      let applied = receipt_already_applied t receipt provider_id in
      let (_, fits, k) = >>=-eq-ok (require (not (is_some receipt && not applied)) _) _ g in
      let fee = input.service_fee_minor +ℤ input.vat_minor in
      let (b, settled, last) = >>=-eq-ok (settle_funds id t fee db.books) _ k in
      let paid : Db = record db {
        books = b;
        sims =
            modify sim (resolve_wallet now t fee applied input.current_main_balance_minor) db.sims;
      } in
      let credited = credit_treasury_if_internal t paid in
      let (books₀, sims₀, transfers₀) = frame-treasury t paid in
      let (ledger, sims, transfers) =
        tail-frame now id actor input.reason DeviceJobState.succeeded AttemptOutcome.success none
          (latest_attempt id db.attempts) LinkedStatus.success
          (transfer_event id TransferStatus.success)
          (set_transfer id (mark_proven now input provider_id) credited) in
      rw (← ok_injective last) (
        provider_id,
        b,
        or_throw-eq-ok _ _ given_id,
        not-true _ (require-eq-ok _ _ fits),
        settled,
        SameLedger-of b credited.books _ books₀ ledger,
        ap (find sim) (sims ∙ sims₀) ∙ find-modify-some sim _ db.sims wallet,
        ap status_of (
            ap (find id) transfers
            ∙ find-modify-some id _ credited.transfers (ap (find id) transfers₀ ∙ row)),
      )
