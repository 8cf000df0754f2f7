-- ===== src/Sms/Snapshot.antt =====
-- apps/api/src/sms/sms-ingestion.service.ts: what a balance message may do to its wallet.
use pay.Shared.{
  ℕ, ◌≤◌, ◌≡◌, refl, ap, ◌∙◌, ◌⊎◌, inl, inr, Bool, false, Bool-cases, Option, none, some, [], ◌∷◌,
  Table, find, find-modify-some, arith,
}
use pay.Domain.{CaseType, Evidence, candidates}
use pay.Ledger.{Books}
use pay.Store.{Db, DeviceJob, SimWallet, SimStatus}
use pay.Withdrawals.Resolution.{SameLedger}
use pay.Sms.Rules.{BalanceSms, balance_refresh_status, is_before}
use pay.Sms.Wallet.{with_case, ids_of}
use pay.Sms.Balance.{
  apply_balance, apply_correlated, balance_candidates, refresh_wallet, answer_query,
}
use pay.Sms.Frames.{succeed_job-SameButDevices}

-- a snapshot time that is not moved back
abbrev pub IsNotBefore : (earlier later : Option ℕ) → Type 0
IsNotBefore none later = Unit
IsNotBefore (some a) none = ⊥
IsNotBefore (some a) (some b) = a ≤ b

IsNotBefore-refl : (o : Option ℕ) → IsNotBefore o o
IsNotBefore-refl none = tt
IsNotBefore-refl (some a) = omega arith

IsNotBefore-fresh : (at : ℕ) (o : Option ℕ) → is_before at o ≡ false → IsNotBefore o (some at)
IsNotBefore-fresh at none h = tt
IsNotBefore-fresh at (some a) h = ground arith

-- a status that a balance message leaves, or a stale wallet that it brings back
abbrev pub IsRefreshed : (before after : SimStatus) → Type 0
IsRefreshed before after =
    (after ≡ before) ⊎ ((before ≡ SimStatus.payout_stale) × (after ≡ SimStatus.active))

refresh-IsRefreshed : (s : SimStatus) → IsRefreshed s (balance_refresh_status s)
unfolding balance_refresh_status
refresh-IsRefreshed SimStatus.payout_stale = inr (refl, refl)
refresh-IsRefreshed SimStatus.pending = inl refl
refresh-IsRefreshed SimStatus.active = inl refl
refresh-IsRefreshed SimStatus.quarantined = inl refl
refresh-IsRefreshed SimStatus.disabled = inl refl

-- what every balance message leaves of the database and of its wallet
abbrev pub IsSafeRefresh : (sim observed : ℕ) → BalanceSms → SimWallet → Db → Db → Type 0
IsSafeRefresh sim observed m s db db' =
    SameLedger db.books db'.books
    × (db'.transfers ≡ db.transfers)
    × (db'.deposits ≡ db.deposits)
    × ((s' : SimWallet) × (find sim db'.sims ≡ some s')
        × IsRefreshed s.status s'.status
        × IsNotBefore s.last_balance_at s'.last_balance_at
        × (s'.reserved_balance_minor ≡ s.reserved_balance_minor)
        × ((s' ≡ s) ⊎ (s' ≡ refresh_wallet observed m s)))

-- a message that is filed as a case
filed-IsSafeRefresh :
    (sim observed rid : ℕ) (m : BalanceSms) (s : SimWallet) (db : Db) (type : CaseType)
    (evidence : Evidence)
    → find sim db.sims ≡ some s
    → IsSafeRefresh sim observed m s db (with_case none type rid evidence db)
unfolding SameLedger
filed-IsSafeRefresh sim observed rid m s db type evidence wallet = (
  (refl, refl, refl),
  refl,
  refl,
  (s, wallet, inl refl, IsNotBefore-refl s.last_balance_at, refl, inl refl),
)

answer-IsSafeRefresh :
    (sim observed : ℕ) (m : BalanceSms) (id : ℕ) (j : DeviceJob) (db : Db) (s : SimWallet)
    → find sim db.sims ≡ some s
    → is_before observed s.last_balance_at ≡ false
    → IsSafeRefresh sim observed m s db (answer_query sim observed m id j db)
unfolding answer_query SameLedger
answer-IsSafeRefresh sim observed m id j db s wallet fresh =
    let (books, sims, transfers, _, deposits, _) = succeed_job-SameButDevices observed id j _ in
    (
      (
        ap (λ (x : Books). x.accounts) books,
        ap (λ (x : Books). x.journals) books,
        ap (λ (x : Books). x.entries) books,
      ),
      transfers,
      deposits,
      (
        refresh_wallet observed m s,
        ap (find sim) sims ∙ find-modify-some sim (refresh_wallet observed m) db.sims wallet,
        refresh-IsRefreshed s.status,
        IsNotBefore-fresh observed s.last_balance_at fresh,
        refl,
        inr refl,
      ),
    )

correlated-IsSafeRefresh :
    (sim rid observed : ℕ) (m : BalanceSms) (leases : Table DeviceJob) (db : Db) (s : SimWallet)
    → find sim db.sims ≡ some s
    → IsSafeRefresh sim observed m s db (apply_correlated sim rid observed m leases db).1
unfolding apply_correlated
correlated-IsSafeRefresh sim rid observed m [] db s wallet =
    filed-IsSafeRefresh sim observed rid m s db CaseType.unmatched_balance_sms (candidates [])
      wallet
correlated-IsSafeRefresh sim rid observed m ((id, j) ∷ []) db s wallet =
    elim (Bool-cases (is_before observed s.last_balance_at)) [
      | inl stale ↦
          rw (wallet, stale)
            (filed-IsSafeRefresh sim observed rid m s db CaseType.stale_balance_sms
              (candidates (id ∷ [])) wallet)
      | inr fresh ↦ rw (wallet, fresh) (answer-IsSafeRefresh sim observed m id j db s wallet fresh)
    ]
correlated-IsSafeRefresh sim rid observed m (x ∷ y ∷ rest) db s wallet =
    filed-IsSafeRefresh sim observed rid m s db CaseType.ambiguous_balance_sms
      (candidates (ids_of (x ∷ y ∷ rest))) wallet

-- A balance message moves no money in the ledger and changes no transfer and no deposit. Its wallet
-- keeps its reservations and takes either all the balances of the message or none, never those of
-- a message that is older than its own snapshot, and its status changes only from `payout_stale`
-- to `active`: a pending, quarantined or disabled SIM is not promoted.
pub apply_balance-IsSafeRefresh :
    (sim rid : ℕ) (trusted : Bool) (m : BalanceSms) (observed : ℕ) (db : Db) (s : SimWallet)
    → find sim db.sims ≡ some s
    → IsSafeRefresh sim observed m s db (apply_balance sim rid trusted m observed db).1
unfolding apply_balance
apply_balance-IsSafeRefresh sim rid trusted m observed db s wallet =
    correlated-IsSafeRefresh sim rid observed m (balance_candidates sim observed trusted db.jobs) db
      s wallet
