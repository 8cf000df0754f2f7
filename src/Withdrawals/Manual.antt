-- ===== src/Withdrawals/Manual.antt =====
-- apps/api/src/withdrawals/withdrawals.service.ts: the guards of `resolveUnknown` together with what
-- its branches do.
use Prim.Native.String.{String}
use pay.Shared.{
  Option, ◌or_default◌, ℕ, ◌≡◌, refl, sym, ap, ◌∙◌, Bool, true, false, not, ◌&&◌, none, some, find,
  subst, Result, ok, or_throw, require, >>=-eq-ok, require-eq-ok, or_throw-eq-ok, some_injective,
  is_some, if◌then◌else◌,
}
use pay.Shared.Int.{ℤ, ◌+ℤ◌, ◌-ℤ◌}
use pay.Ledger.{Books, settle_withdrawal, settle_internal_move_fee}
use pay.Store.{
  Db, Transfer, TransferStatus, SimWallet, is_unresolved, merchant_debit, internal_move,
}
use pay.Withdrawals.Funds.{is_same_day, release_funds, settle_funds}
use pay.Withdrawals.Resolve.{
  ResolveInput, resolve_unknown, resolve_success, resolve_failed, resolve_wallet, is_failed_outcome,
  receipt_already_applied, given, receipt_of,
}
use pay.Withdrawals.Resolution.{
  SameLedger, status_of, not-true, resolve_failed-releases, resolve_success-settles,
}

-- The wallet after a payout of this outflow that held this reservation, where the outflow has been
-- applied to it before or not.
abbrev pub IsCountedOnce :
    ℕ → Bool → Option ℤ → (outflow reservation : ℤ) → SimWallet → SimWallet → Type 0
IsCountedOnce now applied reported outflow reservation s s' =
    (s'.reserved_balance_minor ≡ s.reserved_balance_minor -ℤ reservation)
    × (s'.main_balance_minor
        ≡ reported
          or_default (if applied then s.main_balance_minor else s.main_balance_minor -ℤ outflow))
    × (s'.sent_today_minor ≡ (
        if applied
        then s.sent_today_minor
        else (if is_same_day now s.financial_day then s.sent_today_minor +ℤ outflow else outflow)))

resolve_wallet-IsCountedOnce :
    (now : ℕ) (t : Transfer) (fee : ℤ) (applied : Bool) (reported : Option ℤ) (s : SimWallet)
    → IsCountedOnce now applied reported
        (t.amount_minor +ℤ fee)
        (t.amount_minor +ℤ t.reserve_provider_fee_minor)
        s
        (resolve_wallet now t fee applied reported s)
unfolding resolve_wallet
resolve_wallet-IsCountedOnce now t fee true none s = (refl, refl, refl)
resolve_wallet-IsCountedOnce now t fee true (some x) s = (refl, refl, refl)
resolve_wallet-IsCountedOnce now t fee false none s = (refl, refl, refl)
resolve_wallet-IsCountedOnce now t fee false (some x) s = (refl, refl, refl)

module _ (now id : ℕ) (input : ResolveInput) (actor sim : ℕ) (db db' : Db) (t : Transfer)
    (s : SimWallet) (row : find id db.transfers ≡ some t) (held : t.sim_wallet_id ≡ some sim)
    (wallet : find sim db.sims ≡ some s) where
  -- the guards that a successful resolution has passed
  resolve_unknown-guards :
      resolve_unknown now id input actor db ≡ ok db'
      → (is_unresolved t.status ≡ true)
        × ((is_failed_outcome input.outcome
              && (is_some t.committed_at && not (given input.failure_evidence_reference)))
            ≡ false)
        × ((if is_failed_outcome input.outcome
              then resolve_failed now id input actor t sim db
              else resolve_success now id input actor t sim db)
            ≡ ok db')
  unfolding resolve_unknown
  resolve_unknown-guards h =
      let (u, e, f) = >>=-eq-ok (or_throw (find id db.transfers) _) _ h in
      let same = some_injective (sym row ∙ or_throw-eq-ok _ _ e) in
      let (_, pending, g) = >>=-eq-ok (require (is_unresolved u.status) _) _ f in
      let (_, proven, k) = >>=-eq-ok (require (not (is_failed_outcome input.outcome && _)) _) _ g in
      let (sim', at, last) = >>=-eq-ok (or_throw u.sim_wallet_id _) _ k in
      let here =
        some_injective
          (sym held ∙ ap (λ (x : Transfer). x.sim_wallet_id) same ∙ or_throw-eq-ok _ _ at) in
      rw (same, here) (require-eq-ok _ _ pending, not-true _ (require-eq-ok _ _ proven), last)

  -- A transfer that staff prove failed was unresolved, and had either no commit time or an evidence
  -- reference. What it held is released, in the ledger and on its SIM, and it ends `failed`.
  pub resolve_unknown-releases :
      is_failed_outcome input.outcome ≡ true
      → resolve_unknown now id input actor db ≡ ok db'
      → (is_unresolved t.status ≡ true)
        × ((is_some t.committed_at && not (given input.failure_evidence_reference)) ≡ false)
        × ((b : Books) × (release_funds id t db.books ≡ ok b) × SameLedger b db'.books)
        × (find sim db'.sims
            ≡ some (record s {
              reserved_balance_minor =
                  s.reserved_balance_minor -ℤ (t.amount_minor +ℤ t.reserve_provider_fee_minor);
            }))
        × (status_of (find id db'.transfers) ≡ some TransferStatus.failed)
  resolve_unknown-releases failed h =
      let (pending, proven, last) = resolve_unknown-guards h in
      let (b, released, ledger, sims, status) =
        resolve_failed-releases now id input actor sim db db' t s row wallet (
          subst
            (λ (x : Bool).
              (if x
                then resolve_failed now id input actor t sim db
                else resolve_success now id input actor t sim db)
              ≡ ok db')
            failed last) in
      (
        pending,
        subst
            (λ (x : Bool).
              (x && (is_some t.committed_at && not (given input.failure_evidence_reference)))
              ≡ false)
            failed proven,
        (b, released, ledger),
        sims,
        status,
      )

  -- A transfer that staff prove paid was unresolved; it is settled in the ledger with the fee and tax
  -- of the proof, and it ends as `success`. Its SIM's reserved balance falls by the amount and the
  -- fee reserve. The outflow is counted once: where the provider's message has been applied to the
  -- wallet already, the amount that was sent today stays, and so does the balance, and otherwise the
  -- amount and the fee are added to the one and taken from the other; a balance that comes with
  -- the proof takes the place of the balance in both cases.
  pub resolve_unknown-counts_once :
      (provider_id : String) (applied : Bool)
      → is_failed_outcome input.outcome ≡ false
      → input.provider_transaction_id ≡ some provider_id
      → receipt_already_applied t (receipt_of provider_id db) provider_id ≡ applied
      → resolve_unknown now id input actor db ≡ ok db'
      → (is_unresolved t.status ≡ true)
        × ((b : Books) × ((elim t.financial_mode as (λ _. Books → Result Books) [
          | merchant_debit ↦ settle_withdrawal t.owner id (record {
            amount_minor = t.amount_minor;
            reserved_provider_fee_minor = t.reserve_provider_fee_minor;
            actual_provider_fee_minor = input.service_fee_minor +ℤ input.vat_minor;
            gateway_fee_minor = t.gateway_fee_minor;
          })
          | internal_move ↦
              settle_internal_move_fee t.owner id t.amount_minor t.reserve_provider_fee_minor
                (input.service_fee_minor +ℤ input.vat_minor)
        ])
                db.books
              ≡ ok b)
            × SameLedger b db'.books)
        × ((s' : SimWallet) × (find sim db'.sims ≡ some s')
            × IsCountedOnce now applied input.current_main_balance_minor
                (t.amount_minor +ℤ (input.service_fee_minor +ℤ input.vat_minor))
                (t.amount_minor +ℤ t.reserve_provider_fee_minor)
                s
                s')
        × (status_of (find id db'.transfers) ≡ some TransferStatus.success)
  unfolding settle_funds
  resolve_unknown-counts_once provider_id applied paid given_id known h =
      let (pending, _, last) = resolve_unknown-guards h in
      let (provider, b, given_id', _, settled, ledger, sims, status) =
        resolve_success-settles now id input actor sim db db' t s row wallet (
          subst
            (λ (x : Bool).
              (if x
                then resolve_failed now id input actor t sim db
                else resolve_success now id input actor t sim db)
              ≡ ok db')
            paid last) in
      let same = some_injective (sym given_id ∙ given_id') in
      let fee = input.service_fee_minor +ℤ input.vat_minor in
      (
        pending,
        (b, settled, ledger),
        (
          resolve_wallet now t fee applied input.current_main_balance_minor s,
          sims ∙ ap some (rw (← same, known) refl),
          resolve_wallet-IsCountedOnce now t fee applied input.current_main_balance_minor s,
        ),
        status,
      )
