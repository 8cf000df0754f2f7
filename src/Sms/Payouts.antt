-- ===== src/Sms/Payouts.antt =====
-- apps/api/src/sms/sms-ingestion.service.ts: `matchOutgoing` as a whole.
use Prim.Native.String.{String}
use pay.Shared.{
  Bool, true, Result, ℕ, ◌≡◌, refl, sym, ap, ◌∙◌, false, ◌&&◌, none, some, [], ◌∷◌, if◌then◌else◌,
  ◌or_default◌, Table, find, find-modify-some, ok, >>=-eq-ok, ok_injective, some_injective,
}
use pay.Shared.Int.{pos, ◌+ℤ◌, ◌-ℤ◌}
use pay.Domain.{NameDecision}
use pay.Ledger.{Books, settle_withdrawal, settle_internal_move_fee}
use pay.Store.{Db, Transfer, TransferStatus, merchant_debit, internal_move, SimWallet, SimStatus}
use pay.Withdrawals.{settle_funds, is_text, is_same_day}
use pay.Withdrawals.Resolution.{SameLedger}
use pay.Sms.Rules.{OutgoingTransferSms, is_before}
use pay.Sms.Wallet.{update_wallet_counters}
use pay.Sms.Outgoing.{
  OutgoingMatch, matched_to, match_outgoing, settle_match, settle_outgoing, hold_outflow,
  with_late_case, is_failed_transfer, is_success, pay_from_wallet, payout_matches, payout_rows,
  quarantine_outflow, total_outflow,
}
use pay.Sms.Amounts.{
  mutation-fields, IsPaidOut, pay_from_wallet-IsPaidOut, IsHeld, settlement-IsHeld,
}
use pay.Sms.Settling.{is_single, settle_outgoing-settles, settle_match-IsConfirmed}

quarantine_outflow-fields :
    (now occurred : ℕ) (m : OutgoingTransferSms) (s : SimWallet)
    → let s' = quarantine_outflow now occurred m s in
      (s'.status ≡ SimStatus.quarantined)
      × (s'.sent_today_minor
          ≡ (if is_same_day now s.financial_day then s.sent_today_minor else pos 0)
            +ℤ total_outflow m)
      × (s'.main_balance_minor ≡ (
          if is_before occurred s.last_balance_at
          then s.main_balance_minor
          else m.current_main_balance_minor or_default (s.main_balance_minor -ℤ total_outflow m)))
      × (s'.reserved_balance_minor ≡ s.reserved_balance_minor)
unfolding update_wallet_counters
quarantine_outflow-fields now occurred m s =
    let (main, reserved) =
      mutation-fields occurred m.current_main_balance_minor (total_outflow m) s in
    (refl, refl, main, reserved)

hold_outflow-holds :
    (now sim rid : ℕ) (m : OutgoingTransferSms) (occurred : ℕ) (rows matches : Table Transfer)
    (db : Db) (s : SimWallet)
    → find sim db.sims ≡ some s
    → let x = hold_outflow now sim rid m occurred rows matches db in
      SameLedger db.books x.books
      × (x.transfers ≡ db.transfers)
      × (find sim x.sims ≡ some (quarantine_outflow now occurred m s))
unfolding hold_outflow SameLedger
hold_outflow-holds now sim rid m occurred rows matches db s wallet = (
  (refl, refl, refl),
  refl,
  find-modify-some sim (quarantine_outflow now occurred m) db.sims wallet,
)

-- the case that is filed for a late success leaves the ledger
noted-SameLedger :
    (released : Bool) (id rid : ℕ) (t : Transfer) (db : Db) (held : Books)
    → SameLedger held (with_late_case released id t rid (record db { books = held })).books
unfolding SameLedger
noted-SameLedger true id rid t db held = (refl, refl, refl)
noted-SameLedger false id rid t db held = (refl, refl, refl)

settle_match-holds :
    (now sim rid : ℕ) (m : OutgoingTransferSms) (occurred : ℕ) (rows matches : Table Transfer)
    (r : OutgoingMatch) (db db' : Db)
    → is_single matches ≡ false
    → settle_match now sim rid m occurred rows matches db ≡ ok (r, db')
    → (r.matched_reference ≡ none) × (hold_outflow now sim rid m occurred rows matches db ≡ db')
unfolding settle_match
settle_match-holds now sim rid m occurred rows [] r db db' many h =
    let same = ok_injective h in
    (
      ap (λ (p : OutgoingMatch × Db). p.0.matched_reference) (sym same),
      ap (λ (p : OutgoingMatch × Db). p.1) same,
    )
settle_match-holds now sim rid m occurred rows ((i, t) ∷ []) r db db' many h = cc
settle_match-holds now sim rid m occurred rows (x ∷ y ∷ rest) r db db' many h =
    let same = ok_injective h in
    (
      ap (λ (p : OutgoingMatch × Db). p.0.matched_reference) (sym same),
      ap (λ (p : OutgoingMatch × Db). p.1) same,
    )

module _ (compare_person_names : String → String → NameDecision) (now sim rid : ℕ)
    (m : OutgoingTransferSms) (occurred : ℕ) (db db' : Db) (s : SimWallet)
    (wallet : find sim db.sims ≡ some s) where
  module _ (id : ℕ) (t : Transfer) (row : find id db.transfers ≡ some t)
      (only : payout_matches compare_person_names sim m occurred db ≡ (id, t) ∷ []) where
    -- An outgoing message that exactly one transfer explains, and that has not been settled by it
    -- before, settles that transfer in the ledger with the provider's actual fee. Where staff had
    -- failed the transfer, the ledger first holds again what they released, and the SIM's reserved
    -- balance stays; otherwise the SIM gives up the amount and the fee reserve. Its wallet pays the
    -- amount and the actual fee. The transfer ends as `success` under the provider's transaction
    -- id, with the receiver's name and the fees of the message.
    pub match_outgoing-settles :
        (r : OutgoingMatch)
        → (is_success t.status && is_text t.provider_transaction_id m.provider_transaction_id)
          ≡ false
        → match_outgoing compare_person_names now sim rid m occurred db ≡ ok (r, db')
        → (held : Books) × (noted : Books) × (b : Books) × (s' : SimWallet) × (r.matched_reference
            ≡ some t.reference)
          × IsHeld id t db.books held s s'
          × SameLedger held noted
          × ((elim t.financial_mode as (λ _. Books → Result Books) [
            | merchant_debit ↦ settle_withdrawal t.owner id (record {
              amount_minor = t.amount_minor;
              reserved_provider_fee_minor = t.reserve_provider_fee_minor;
              actual_provider_fee_minor = m.service_fee_minor +ℤ m.vat_minor;
              gateway_fee_minor = t.gateway_fee_minor;
            })
            | internal_move ↦
                settle_internal_move_fee t.owner id t.amount_minor t.reserve_provider_fee_minor
                  (m.service_fee_minor +ℤ m.vat_minor)
          ])
                noted
              ≡ ok b)
          × SameLedger b db'.books
          × (find sim db'.sims ≡ some s')
          × IsPaidOut now occurred m (t.amount_minor +ℤ (m.service_fee_minor +ℤ m.vat_minor)) s s'
          × (find id db'.transfers
              ≡ some (record t {
                status = TransferStatus.success;
                resolved_name = some m.receiver_name;
                provider_fee_minor = some m.service_fee_minor;
                provider_vat_minor = some m.vat_minor;
                provider_transaction_id = some m.provider_transaction_id;
                completed_at = some now;
              }))
    unfolding match_outgoing settle_match settle_funds
    match_outgoing-settles r open_still h =
        let settled = rw (only, open_still) at h in
        let (x, went, same) =
          >>=-eq-ok (settle_outgoing now sim rid m occurred id t db) _ settled in
        let last : x ≡ db' = ap (λ (p : OutgoingMatch × Db). p.1) (ok_injective same) in
        let (held, b, before, paid, ledger, sims, end) =
          settle_outgoing-settles now sim rid m occurred id t db db' s row wallet
            (rw last at went) in
        (
          held,
          (with_late_case (is_failed_transfer t.status) id t rid
              (record db { books = held })).books,
          b,
          pay_from_wallet now occurred m (is_failed_transfer t.status) t s,
          ap (λ (p : OutgoingMatch × Db). p.0.matched_reference) (sym (ok_injective same)),
          settlement-IsHeld now occurred id m t db.books held s before,
          noted-SameLedger (is_failed_transfer t.status) id rid t db held,
          paid,
          ledger,
          sims,
          pay_from_wallet-IsPaidOut now occurred m (is_failed_transfer t.status) t s,
          end,
        )

    -- A payout that has been settled by an outgoing message is not settled by it again: another
    -- copy of the message, whatever its receipt and its time, whose only match is the same
    -- transfer, reports that transfer and leaves the whole database as it is.
    pub match_outgoing-settles_once :
        (r : OutgoingMatch) (now' rid' occurred' : ℕ) (t' : Transfer)
        → match_outgoing compare_person_names now sim rid m occurred db ≡ ok (r, db')
        → find id db'.transfers ≡ some t'
        → payout_matches compare_person_names sim m occurred' db' ≡ (id, t') ∷ []
        → match_outgoing compare_person_names now' sim rid' m occurred' db'
          ≡ ok (matched_to t', db')
    unfolding match_outgoing settle_match
    match_outgoing-settles_once r now' rid' occurred' t' h end again =
        let (u, ended, confirmed, _) =
          settle_match-IsConfirmed now sim rid m occurred id t db db'
            (payout_rows sim m occurred db.transfers) r s row wallet (rw only at h) in
        let same : t' ≡ u = some_injective (sym end ∙ ended) in rw (again, same, confirmed) refl

  -- An outgoing message that no transfer or more than one transfer explains writes no journal and
  -- changes no transfer. Its SIM is quarantined, the whole outflow is counted to the day, and the
  -- balance follows the message unless the wallet has a newer one; the reservations stay.
  pub match_outgoing-quarantines :
      (r : OutgoingMatch)
      → is_single (payout_matches compare_person_names sim m occurred db) ≡ false
      → match_outgoing compare_person_names now sim rid m occurred db ≡ ok (r, db')
      → (r.matched_reference ≡ none)
        × SameLedger db.books db'.books
        × (db'.transfers ≡ db.transfers)
        × ((s' : SimWallet) × (find sim db'.sims ≡ some s')
            × (s'.status ≡ SimStatus.quarantined)
            × (s'.sent_today_minor
                ≡ (if is_same_day now s.financial_day then s.sent_today_minor else pos 0)
                  +ℤ total_outflow m)
            × (s'.main_balance_minor ≡ (
                if is_before occurred s.last_balance_at
                then s.main_balance_minor
                else m.current_main_balance_minor
                  or_default (s.main_balance_minor -ℤ total_outflow m)))
            × (s'.reserved_balance_minor ≡ s.reserved_balance_minor))
  unfolding match_outgoing
  match_outgoing-quarantines r many h =
      let rows = payout_rows sim m occurred db.transfers in
      let matches = payout_matches compare_person_names sim m occurred db in
      let (reference, held) =
        settle_match-holds now sim rid m occurred rows matches r db db' many h in
      let (ledger, transfers, sims) =
        hold_outflow-holds now sim rid m occurred rows matches db s wallet in
      let (status, sent, main, reserved) = quarantine_outflow-fields now occurred m s in
      rw (← held) (
        reference,
        ledger,
        transfers,
        (quarantine_outflow now occurred m s, sims, status, sent, main, reserved),
      )
