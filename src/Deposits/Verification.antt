-- ===== src/Deposits/Verification.antt =====
-- apps/api/src/deposits/deposits.service.ts, `verify`: the status of a deposit at a moment.
use Prim.Native.String.{String}
use pay.Shared.{ℕ, Bool, ◌&&◌, ltb, leb, if◌then◌else◌, str_eq, Result, or_throw, not_found}
use pay.Domain.{FinancialContext, same_owner}
use pay.Store.{Db, DepositIntent, DepositStatus}
use mathlib.Core.Option
use pay.Withdrawals.{find_by}

-- the status that `verify` shows, whether or not the sweep has stored it
unfoldable pub seen_as : (now expires_at late_grace_ends_at : ℕ) → DepositStatus → DepositStatus
seen_as now expires grace DepositStatus.awaiting_payment =
    if leb expires now
    then (if ltb now grace then DepositStatus.late_grace else DepositStatus.expired)
    else DepositStatus.awaiting_payment
seen_as now expires grace DepositStatus.late_grace =
    if leb grace now then DepositStatus.expired else DepositStatus.late_grace
seen_as now expires grace status = status

abbrev pub status_at : (now : ℕ) → DepositIntent → DepositStatus
status_at now d = seen_as now d.expires_at d.late_grace_ends_at d.status

abbrev pub is_named : FinancialContext → (tx_ref : String) → DepositIntent → Bool
is_named auth tx_ref d = same_owner auth d.owner && str_eq tx_ref d.tx_ref

abbrev pub seen_at : (now : ℕ) → ℕ × DepositIntent → ℕ × DepositStatus
seen_at now (id, d) = (id, status_at now d)

-- `verify`: the deposit of the reference, with the status of the moment
unfoldable pub verify_deposit :
    (now : ℕ) → FinancialContext → (tx_ref : String) → Db → Result (ℕ × DepositStatus)
verify_deposit now auth tx_ref db =
    or_throw (Option.map (seen_at now) (find_by (is_named auth tx_ref) db.deposits)) not_found
