-- ===== src/Sms/Balance.antt =====
-- apps/api/src/sms/sms-ingestion.service.ts: `applyBalance`. A balance message is taken for the
-- answer of the one balance query that can have asked for it.
use pay.Shared.{
  ℕ, Bool, true, false, ◌&&◌, Option, none, some, [], ◌∷◌, ◌==◌, ltb, leb, if◌then◌else◌, is_some,
  Table, find, modify,
}
use pay.Domain.{CaseType, candidates}
use pay.Store.{
  Db, DeviceJob, DeviceJobState, DeviceJobType, balance_query, SimWallet, BalanceSnapshot,
  BalanceSource,
}
use pay.Shared.Sorting.{filter, take, sort}
use pay.Devices.{clear_lock}
use pay.Sms.Rules.{
  BalanceSms, balance_refresh_status, is_correlatable, in_query_window, in_query_window_opt,
  lasts_until, is_correlatable_lease, is_before,
}
use pay.Sms.Wallet.{CorrelationStatus, unmatched, ambiguous, matched, with_case, ids_of}

abbrev pub is_balance_query : DeviceJobType → Bool
is_balance_query balance_query = true
is_balance_query _ = false

-- the `where` of the query for the jobs
unfoldable pub is_recent_balance_job : (sim observed_at : ℕ) → ℕ × DeviceJob → Bool
is_recent_balance_job sim observed (_, j) =
    ((j.sim_wallet_id == sim) && is_balance_query j.type)
    && ((is_correlatable j.state && (is_some j.device_id && is_some j.lease_owner))
        && ((lasts_until observed j.lease_expires_at && leb observed j.expires_at)
            && (in_query_window_opt observed j.started_at
                && in_query_window observed j.created_at)))

-- `orderBy: { createdAt: 'desc' }`
abbrev pub is_newer_job : ℕ × DeviceJob → ℕ × DeviceJob → Bool
is_newer_job y x = ltb x.1.created_at y.1.created_at

-- the leases that the message can answer
unfoldable pub balance_candidates :
    (sim observed_at : ℕ) → (trusted : Bool) → Table DeviceJob → Table DeviceJob
balance_candidates sim observed false jobs = []
balance_candidates sim observed true jobs =
    filter (λ x. is_correlatable_lease observed x.1)
      (take 3 (sort is_newer_job (filter (is_recent_balance_job sim observed) jobs)))

-- the wallet with the balances of the message
abbrev pub refresh_wallet : (observed_at : ℕ) → BalanceSms → SimWallet → SimWallet
refresh_wallet observed m s = record s {
  main_balance_minor = m.main_balance_minor;
  incentive_balance_minor = m.incentive_balance_minor;
  fuel_balance_minor = m.fuel_balance_minor;
  pocket_money_balance_minor = m.pocket_money_balance_minor;
  last_balance_at = some observed;
  last_balance_source = some BalanceSource.balance_sms;
  status = balance_refresh_status s.status;
}

abbrev snapshot_of : (sim observed_at : ℕ) → BalanceSms → BalanceSnapshot
snapshot_of sim observed m = record {
  sim_wallet_id = sim;
  main_balance_minor = m.main_balance_minor;
  incentive_balance_minor = m.incentive_balance_minor;
  fuel_balance_minor = m.fuel_balance_minor;
  pocket_money_balance_minor = m.pocket_money_balance_minor;
  source = BalanceSource.balance_sms;
  observed_at = observed;
}

abbrev pub free_device : Option ℕ → (job_id : ℕ) → Db → Db
free_device none job_id db = db
free_device (some device_id) job_id db = record db {
  devices = modify device_id (clear_lock job_id) db.devices;
}

-- the job of the query has its answer
abbrev pub succeed_job : (at job_id : ℕ) → DeviceJob → Db → Db
succeed_job at job_id j db = free_device j.device_id job_id (record db {
  jobs =
      modify job_id
        (λ (k : DeviceJob). record k { state = DeviceJobState.succeeded; completed_at = some at })
        db.jobs;
})

abbrev pub is_stale : (observed_at : ℕ) → Option SimWallet → Bool
is_stale observed none = false
is_stale observed (some s) = is_before observed s.last_balance_at

-- the snapshot, the wallet and the job of a message that answers a query
unfoldable pub answer_query :
    (sim observed_at : ℕ) → BalanceSms → (job_id : ℕ) → DeviceJob → Db → Db
answer_query sim observed m job_id j db = succeed_job observed job_id j (record db {
  snapshots = snapshot_of sim observed m ∷ db.snapshots;
  sims = modify sim (refresh_wallet observed m) db.sims;
})

-- `applyBalance`, by the leases that can have asked
unfoldable pub apply_correlated :
    (sim receipt_id observed_at : ℕ)
    → BalanceSms
    → (leases : Table DeviceJob) → Db
    → CorrelationStatus × Db
apply_correlated sim receipt_id observed m [] db =
    (unmatched, with_case none CaseType.unmatched_balance_sms receipt_id (candidates []) db)
apply_correlated sim receipt_id observed m ((job_id, j) ∷ []) db =
    if is_stale observed (find sim db.sims)
    then (
      unmatched,
      with_case none CaseType.stale_balance_sms receipt_id (candidates (job_id ∷ [])) db,
    )
    else (matched, answer_query sim observed m job_id j db)
apply_correlated sim receipt_id observed m (x ∷ y ∷ rest) db = (
  ambiguous,
  with_case none CaseType.ambiguous_balance_sms receipt_id (candidates (ids_of (x ∷ y ∷ rest))) db,
)

-- `applyBalance`
unfoldable pub apply_balance :
    (sim receipt_id : ℕ)
    → (trusted : Bool) → BalanceSms
    → (observed_at : ℕ) → Db
    → CorrelationStatus × Db
apply_balance sim receipt_id trusted m observed db =
    apply_correlated sim receipt_id observed m (balance_candidates sim observed trusted db.jobs) db
