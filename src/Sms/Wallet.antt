-- ===== src/Sms/Wallet.antt =====
-- apps/api/src/sms/sms-ingestion.service.ts: `updateWalletCounters`, and the rows that the matching
-- of a message writes beside the money.
use pay.Shared.{ℕ, Option, some, List, [], ◌∷◌, Table, if◌then◌else◌}
use pay.Shared.Int.{ℤ, pos, ◌+ℤ◌}
use pay.Domain.{CaseType, Evidence, opened}
use pay.Store.{Db, SimWallet}
use pay.Withdrawals.{addis_financial_day, is_same_day}

-- `CorrelationStatus`, of a balance message or of an outgoing one
pub data CorrelationStatus : Type 0 where
  matched unmatched ambiguous : CorrelationStatus

-- `updateWalletCounters`: `data` is the change that comes with the counters
unfoldable pub update_wallet_counters :
    (now : ℕ) → (sent received : ℤ) → (data' : SimWallet → SimWallet) → SimWallet → SimWallet
update_wallet_counters now sent received data' s = record (data' s) {
  financial_day = some (addis_financial_day now);
  sent_today_minor =
      (if is_same_day now s.financial_day then s.sent_today_minor else pos 0) +ℤ sent;
  received_today_minor =
      (if is_same_day now s.financial_day then s.received_today_minor else pos 0) +ℤ received;
}

-- `reconciliationCase.create`
abbrev pub with_case : Option ℕ → CaseType → (reference_id : ℕ) → Evidence → Db → Db
with_case merchant type id evidence db = record db {
  books = record (db.books) {
    cases =
        record {
          merchant_id = merchant;
          type = type;
          status = opened;
          reference_id = id;
          evidence = evidence;
        }
        ∷ db.books.cases;
  };
}

module _ {ℓ} {V : Type ℓ} where
  -- `rows.map((item) => item.id)`
  abbrev pub ids_of : Table V → List ℕ
  ids_of [] = []
  ids_of ((id, v) ∷ rest) = id ∷ ids_of rest
