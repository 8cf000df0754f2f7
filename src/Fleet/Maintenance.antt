-- ===== src/Fleet/Maintenance.antt =====
-- apps/api/src/fleet/fleet-maintenance.service.ts: the jobs that run on a clock. They mark silent
-- devices and stale balances, let deposits run out, and ask SIMs for their balance.
-- `evaluateLiquidityRisk` only sends alerts.
use pay.Shared.{
  ℕ, ◌+◌, ◌-◌, Bool, true, false, not, ◌&&◌, Option, none, some, [], ◌∷◌, ◌==◌, ltb, leb,
  if◌then◌else◌, Table, find, modify, modify_many, create, any,
}
use pay.Shared.Sorting.{filter, take, sort}
use pay.Store.{
  Db, Device, DeviceStatus, SimWallet, SimStatus, DeviceJob, DeviceJobState, DeviceJobType,
  DepositIntent, DepositStatus, OutboxEvent, CoarseStatus, AggregateType, is_online,
}
use pay.Withdrawals.{emit, current_profile_version, next_fence}

-- a time that is there and earlier
abbrev is_earlier : Option ℕ → ℕ → Bool
is_earlier none at = false
is_earlier (some t) at = ltb t at

abbrev is_reachable : DeviceStatus → Bool
is_reachable DeviceStatus.online = true
is_reachable DeviceStatus.degraded = true
is_reachable _ = false

-- three minutes without a heartbeat
unfoldable pub is_silent : (now : ℕ) → Device → Bool
is_silent now d = is_reachable d.status && is_earlier d.last_heartbeat_at (now - 180000)

abbrev is_active : SimStatus → Bool
is_active SimStatus.active = true
is_active _ = false

abbrev is_missing_or_earlier : Option ℕ → ℕ → Bool
is_missing_or_earlier none at = true
is_missing_or_earlier (some t) at = ltb t at

-- `stale` is `policy.balanceStaleSeconds` in milliseconds
unfoldable pub has_stale_balance : (now stale : ℕ) → SimWallet → Bool
has_stale_balance now stale s =
    is_active s.status && is_missing_or_earlier s.last_balance_at (now - stale)

abbrev pub is_awaiting : DepositStatus → Bool
is_awaiting DepositStatus.awaiting_payment = true
is_awaiting _ = false

abbrev pub is_awaiting_or_late : DepositStatus → Bool
is_awaiting_or_late DepositStatus.awaiting_payment = true
is_awaiting_or_late DepositStatus.late_grace = true
is_awaiting_or_late _ = false

-- the two statuses that `transitionDeposits` can set
pub data Lapse : Type 0 where
  late_grace expired : Lapse

abbrev pub status_of : Lapse → DepositStatus
status_of late_grace = DepositStatus.late_grace
status_of expired = DepositStatus.expired

-- the status that the update asks for
abbrev pub may_lapse : Lapse → DepositStatus → Bool
may_lapse late_grace = is_awaiting
may_lapse expired = is_awaiting_or_late

-- the `where` of each call
unfoldable pub is_due_to : (now : ℕ) → Lapse → DepositIntent → Bool
is_due_to now late_grace d =
    leb d.expires_at now && (is_awaiting d.status && ltb now d.late_grace_ends_at)
is_due_to now expired d = leb d.late_grace_ends_at now && is_awaiting_or_late d.status

abbrev coarse_lapse : Lapse → CoarseStatus
coarse_lapse late_grace = CoarseStatus.pending
coarse_lapse expired = CoarseStatus.failed

abbrev lapse_event : (id : ℕ) → Lapse → OutboxEvent
lapse_event id l = record {
  aggregate_type = AggregateType.deposit;
  aggregate_id = id;
  status = coarse_lapse l;
  p2p_status = none;
}

abbrev pub with_status : DepositStatus → DepositIntent → DepositIntent
with_status s d = record d { status = s }

abbrev pub lapse : (id : ℕ) → Lapse → Db → Db
lapse id l db =
    emit (lapse_event id l)
      (record db { deposits = modify id (with_status (status_of l)) db.deposits })

-- the transaction of one deposit, which looks at its status again
unfoldable pub lapse_found : (id : ℕ) → Lapse → Option DepositIntent → Db → Db
lapse_found id l none db = db
lapse_found id l (some d) db = if may_lapse l d.status then lapse id l db else db

unfoldable pub lapse_each : Lapse → Table DepositIntent → Db → Db
lapse_each l [] db = db
lapse_each l ((id, _) ∷ rest) db = lapse_each l rest (lapse_found id l (find id db.deposits) db)

-- `transitionDeposits`, of at most 500 deposits
unfoldable pub transition_deposits : (now : ℕ) → Lapse → Db → Db
transition_deposits now l db =
    lapse_each l (take 500 (filter (λ x. is_due_to now l x.1) db.deposits)) db

abbrev pub mark_silent : (now : ℕ) → Db → Db
mark_silent now db = record db {
  devices =
      modify_many (is_silent now) (λ d. record d { status = DeviceStatus.offline }) db.devices;
}

abbrev pub mark_stale : (now stale : ℕ) → Db → Db
mark_stale now stale db = record db {
  sims =
      modify_many (has_stale_balance now stale) (λ s. record s { status = SimStatus.payout_stale })
        db.sims;
}

-- `updateHealth`
unfoldable pub update_health : (now stale : ℕ) → Db → Db
update_health now stale db =
    transition_deposits now expired
      (transition_deposits now late_grace (mark_stale now stale (mark_silent now db)))

abbrev needs_balance : SimStatus → Bool
needs_balance SimStatus.pending = true
needs_balance SimStatus.payout_stale = true
needs_balance _ = false

abbrev is_ready : Option Device → Bool
is_ready none = false
is_ready (some d) = is_online d.status && (d.last_permissions_ok && d.last_accessibility_ok)

abbrev is_open_state : DeviceJobState → Bool
is_open_state DeviceJobState.queued = true
is_open_state DeviceJobState.leased = true
is_open_state DeviceJobState.device_started = true
is_open_state DeviceJobState.committed = true
is_open_state DeviceJobState.provider_pending = true
is_open_state _ = false

abbrev is_query : DeviceJobType → Bool
is_query DeviceJobType.balance_query = true
is_query _ = false

-- an unfinished question for the balance of the SIM
unfoldable pub is_open_query : (sim : ℕ) → ℕ × DeviceJob → Bool
is_open_query sim (_, j) = (j.sim_wallet_id == sim) && (is_query j.type && is_open_state j.state)

unfoldable pub is_query_target : Table Device → Table DeviceJob → ℕ × SimWallet → Bool
is_query_target devices jobs (id, s) =
    needs_balance s.status
    && (is_ready (find s.device_id devices) && not (any (is_open_query id) jobs))

-- the oldest balance first, a SIM without one last
abbrev has_older_balance : ℕ × SimWallet → ℕ × SimWallet → Bool
has_older_balance (_, a) (_, b) = elim a.last_balance_at [
  | none ↦ false
  | some t ↦ elim b.last_balance_at [ none ↦ true | some u ↦ ltb t u ]
]

abbrev query_job : (now sim fence : ℕ) → SimWallet → DeviceJob
query_job now sim fence s = record {
  type = DeviceJobType.balance_query;
  state = DeviceJobState.queued;
  priority = 100;
  device_id = some s.device_id;
  sim_wallet_id = sim;
  profile_version = current_profile_version;
  transfer_id = none;
  financial_operation_id = none;
  approved_provider_name = none;
  attempt = 1;
  fencing_token = fence;
  lease_owner = none;
  lease_expires_at = none;
  expires_at = now + 900000;
  created_at = now;
  started_at = none;
  committed_at = none;
  completed_at = none;
  error_code = none;
}

unfoldable pub query_found : (now sim : ℕ) → Option SimWallet → Db → Db
query_found now sim none db = db
query_found now sim (some s) db = record db {
  sims = modify sim next_fence db.sims;
  jobs = create db.next_id (query_job now sim (s.next_fencing_token + 1) s) db.jobs;
  next_id = db.next_id + 1;
}

unfoldable pub query_each : (now : ℕ) → Table SimWallet → Db → Db
query_each now [] db = db
query_each now ((sim, _) ∷ rest) db =
    query_each now rest (query_found now sim (find sim db.sims) db)

-- `queueStaleBalanceQueries`; `rate` is BALANCE_QUERY_RATE_PER_MINUTE
unfoldable pub queue_stale_balance_queries : (now rate : ℕ) → Db → Db
queue_stale_balance_queries now rate db =
    query_each now
      (take rate (sort has_older_balance (filter (is_query_target db.devices db.jobs) db.sims))) db
