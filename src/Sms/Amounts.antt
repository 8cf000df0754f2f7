-- ===== src/Sms/Amounts.antt =====
-- apps/api/src/sms/sms-ingestion.service.ts: the amounts that a matched message leaves in the rows,
-- written out.
use pay.Shared.{
  ℕ, ◌≡◌, refl, sym, ap, ◌∙◌, ◌≢◌, ◌⊎◌, inl, inr, Bool, true, false, ◌==◌, Bool-cases, Option, some,
  [], ◌∷◌, if◌then◌else◌, ◌or_default◌, Table, any, All, find, find-modify-some, find-modify_ne,
  modify, subst, if-cases, Result, ok, ok_injective, if-both, arith, &&-both, ==_iff,
}
use pay.Shared.Int.{ℤ, pos, ◌+ℤ◌, ◌-ℤ◌}
use pay.Domain.{same_owner_iff, FinancialContext, same_owner, live}
use pay.Ledger.{Books, restore_released_withdrawal, restore_released_internal_move_fee}
use pay.Store.{
  Transfer, TransferStatus, SimWallet, DepositIntent, DepositStatus, merchant_debit, internal_move,
}
use pay.Withdrawals.{is_same_day}
use pay.Sms.Rules.{
  IncomingTransferSms, OutgoingTransferSms, transaction_balance_mutation, decrement, is_before,
}
use pay.Sms.Wallet.{update_wallet_counters}
use pay.Sms.Incoming.{receive_into, review_all, review, suspense_owner, all_owned_by}
use pay.Sms.Outgoing.{is_failed_transfer, books_before, restore_funds, pay_from_wallet}

-- what a transaction's message does to the balance, and to nothing else
pub mutation-fields :
    (occurred : ℕ) (reported : Option ℤ) (x : ℤ) (s : SimWallet)
    → let s' = transaction_balance_mutation occurred reported x decrement s in
      (s'.main_balance_minor ≡ (
        if is_before occurred s.last_balance_at
        then s.main_balance_minor
        else reported or_default (s.main_balance_minor -ℤ x)))
      × (s'.reserved_balance_minor ≡ s.reserved_balance_minor)
unfolding transaction_balance_mutation
mutation-fields occurred reported x s = elim (Bool-cases (is_before occurred s.last_balance_at)) [
  | inl e ↦ rw e (refl, refl)
  | inr e ↦ rw e (refl, refl)
]

-- The wallet has received the message's amount: it is counted to the day, and the balance follows
-- the message unless the wallet has a newer one. Nothing is reserved or released.
abbrev pub IsReceived : ℕ → ℕ → IncomingTransferSms → SimWallet → SimWallet → Type 0
IsReceived now occurred m s s' =
    (s'.received_today_minor
      ≡ (if is_same_day now s.financial_day then s.received_today_minor else pos 0)
        +ℤ m.amount_minor)
    × (s'.main_balance_minor ≡ (
        if is_before occurred s.last_balance_at
        then s.main_balance_minor
        else m.current_main_balance_minor or_default (s.main_balance_minor +ℤ m.amount_minor)))
    × (s'.reserved_balance_minor ≡ s.reserved_balance_minor)

pub receive_into-IsReceived :
    (now occurred : ℕ) (m : IncomingTransferSms) (s : SimWallet)
    → IsReceived now occurred m s (receive_into now occurred m s)
unfolding update_wallet_counters transaction_balance_mutation
receive_into-IsReceived now occurred m s =
    elim (Bool-cases (is_before occurred s.last_balance_at)) [
      | inl e ↦ rw e (refl, refl, refl)
      | inr e ↦ rw e (refl, refl, refl)
    ]

-- The wallet has paid this outflow: it is counted to the day, and the balance follows the message
-- unless the wallet has a newer one.
abbrev pub IsPaidOut : ℕ → ℕ → OutgoingTransferSms → ℤ → SimWallet → SimWallet → Type 0
IsPaidOut now occurred m outflow s s' =
    (s'.sent_today_minor
      ≡ (if is_same_day now s.financial_day then s.sent_today_minor else pos 0) +ℤ outflow)
    × (s'.main_balance_minor ≡ (
        if is_before occurred s.last_balance_at
        then s.main_balance_minor
        else m.current_main_balance_minor or_default (s.main_balance_minor -ℤ outflow)))

pub pay_from_wallet-IsPaidOut :
    (now occurred : ℕ) (m : OutgoingTransferSms) (released : Bool) (t : Transfer) (s : SimWallet)
    → IsPaidOut now occurred m
        (t.amount_minor +ℤ (m.service_fee_minor +ℤ m.vat_minor))
        s
        (pay_from_wallet now occurred m released t s)
unfolding update_wallet_counters pay_from_wallet
pay_from_wallet-IsPaidOut now occurred m true t s = (
  refl,
  (mutation-fields occurred m.current_main_balance_minor
      (t.amount_minor +ℤ (m.service_fee_minor +ℤ m.vat_minor)) s).0,
)
pay_from_wallet-IsPaidOut now occurred m false t s = (
  refl,
  (mutation-fields occurred m.current_main_balance_minor
      (t.amount_minor +ℤ (m.service_fee_minor +ℤ m.vat_minor)) s).0,
)

-- The money that the settlement of a payout starts from. Where staff had failed the payout, the
-- ledger holds again what they released, by the financial mode, and the SIM, which had given up
-- its reservation, keeps its reserved balance; otherwise the ledger is as it was, and the SIM's
-- reserved balance falls by the amount and the fee reserve.
abbrev pub IsHeld : ℕ → Transfer → Books → Books → SimWallet → SimWallet → Type 0
IsHeld id t b held s s' =
    ((t.status ≡ TransferStatus.failed)
      × ((elim t.financial_mode as (λ _. Books → Result Books) [
        | merchant_debit ↦
            restore_released_withdrawal t.owner id
              (t.amount_minor +ℤ t.reserve_provider_fee_minor +ℤ t.gateway_fee_minor)
        | internal_move ↦ restore_released_internal_move_fee t.owner id t.reserve_provider_fee_minor
      ])
            b
          ≡ ok held)
      × (s'.reserved_balance_minor ≡ s.reserved_balance_minor))
    ⊎ ((t.status ≢ TransferStatus.failed)
        × (b ≡ held)
        × (s'.reserved_balance_minor
            ≡ s.reserved_balance_minor -ℤ (t.amount_minor +ℤ t.reserve_provider_fee_minor)))

failed-cases :
    (x : TransferStatus)
    → ((x ≡ TransferStatus.failed) × (is_failed_transfer x ≡ true))
      ⊎ ((x ≢ TransferStatus.failed) × (is_failed_transfer x ≡ false))
failed-cases x = ground arith

pub settlement-IsHeld :
    (now occurred id : ℕ) (m : OutgoingTransferSms) (t : Transfer) (b held : Books) (s : SimWallet)
    → books_before (is_failed_transfer t.status) id t b ≡ ok held
    → IsHeld id t b held s (pay_from_wallet now occurred m (is_failed_transfer t.status) t s)
unfolding books_before restore_funds pay_from_wallet update_wallet_counters
settlement-IsHeld now occurred id m t b held s h =
    let (_, reserved) =
      mutation-fields occurred m.current_main_balance_minor
        (t.amount_minor +ℤ (m.service_fee_minor +ℤ m.vat_minor)) s in
    elim (failed-cases t.status) [
      | inl (failed, e) ↦ inl (failed, rw e at h, rw e reserved)
      | inr (other, e) ↦ inr (
        other,
        ok_injective (rw e at h),
        rw e (ap (λ (x : ℤ). x -ℤ (t.amount_minor +ℤ t.reserve_provider_fee_minor)) reserved),
      )
    ]

all_owned_by-All :
    (o : FinancialContext) (rows : Table DepositIntent)
    → all_owned_by o rows ≡ true
    → All (λ x. o ≡ x.1.owner) rows
unfolding all_owned_by
all_owned_by-All o [] h = tt
all_owned_by-All o ((k, d) ∷ rest) h =
    let (here, there) = &&-both (same_owner o d.owner) _ h in
    ((same_owner_iff o d.owner).0 here, all_owned_by-All o rest there)

-- the owner of the suspense: the system, or the owner of every deposit that the sender may mean
pub suspense_owner-cases :
    (system : ℕ) (potential : Table DepositIntent)
    → let o = suspense_owner system potential in
      (o ≡ record { merchant_id = system; environment = live }) ⊎ All (λ x. o ≡ x.1.owner) potential
unfolding suspense_owner
suspense_owner-cases system [] = inl refl
suspense_owner-cases system ((k, d) ∷ rest) =
    elim (if-cases (all_owned_by d.owner rest) d.owner
      (record { merchant_id = system; environment = live }) (suspense_owner system ((k, d) ∷ rest))
      refl) [
        | inl (e, same) ↦ inr (
            subst (λ (o : FinancialContext). All (λ x. o ≡ x.1.owner) ((k, d) ∷ rest)) same
              (refl, all_owned_by-All d.owner rest e))
        | inr (_, same) ↦ inl (sym same)
      ]

-- a row after the review of some rows
pub find-review_all :
    (strong deposits : Table DepositIntent) (id : ℕ) (d : DepositIntent)
    → find id deposits ≡ some d
    → find id (review_all strong deposits)
      ≡ some (
          if any (λ x. x.0 == id) strong
          then record d { status = DepositStatus.manual_review }
          else d)
unfolding review_all any
find-review_all [] deposits id d h = h
find-review_all ((k, _) ∷ rest) deposits id d h = elim (Bool-cases (k == id)) [
  | inl e ↦
      let same : k ≡ id = (==_iff k id).0 e in
      rw
        (
          e,
          find-review_all rest (modify k review deposits) id (review d)
              (rw same (find-modify-some id review deposits h)),
        )
        (if-both (λ (x : DepositIntent). some x ≡ some (review d)) (any (λ x. x.0 == id) rest) _ _
          refl refl)
  | inr e ↦ rw e (
      find-review_all rest (modify k review deposits) id d
        (find-modify_ne id k review deposits (ground arith) ∙ h))
]
