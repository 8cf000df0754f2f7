-- ===== src/Sweeps/Runs.antt =====
-- apps/api/src/sweeps/sweeps.service.ts: `executeCandidate`, `executeRule` and
-- `orchestrateApprovedRules`.
use Prim.Native.String.{String}
use pay.Shared.{
  ℕ, ◌*◌, Bool, true, false, not, ◌&&◌, Option, none, some, List, [], ◌∷◌, ◌==◌, ltb, if◌then◌else◌,
  is_some, Table, find, any, Result, ok, err, ApiError, ◌>>=◌, ◌>>◌, or_throw, not_found,
  invalid_state, record_not_found,
}
use pay.Shared.Int.{pos, leb_ℤ, ltb_ℤ}
use pay.Shared.Sorting.{filter, take, sort}
use pay.Domain.{NameDecision}
use pay.Store.{Db, SweepRule, SweepKey, SimWallet, Device, DeviceGroup, is_active_sim, is_online}
use pay.Withdrawals.{find_by}
use pay.Devices.{is_recent}
use pay.Deposits.Intents.{merchant_config}
use pay.Sweeps.Checks.{
  assert_group_access, assert_destination_not_fleet, assert_approved_destination,
}
use pay.Sweeps.Execution.{
  is_executable, sweep_amount, is_recent_execution, same_key, key_of, dispatch_once,
}

-- the SIM of the rule's group, in service and with a fresh balance and heartbeat
unfoldable pub is_sweepable : (now stale : ℕ) → SweepRule → SimWallet → Option Device → Bool
is_sweepable now stale rule s none = false
is_sweepable now stale rule s (some d) =
    ((d.group_id == rule.group_id) && (is_active_sim s.status && is_online d.status))
    && (is_recent now (stale * 1000) s.last_balance_at && is_recent now 90000 d.last_heartbeat_at)

-- A run so far: the executions and the errors, the last one first, and the database that the
-- transactions that went through have left.
pub record Run : Type 0 where
  pub executions : List ℕ
  pub errors : List ApiError
  pub db : Db

abbrev pub noted : Option ℕ → List ℕ → List ℕ
noted none ids = ids
noted (some id) ids = id ∷ ids

unfoldable pub after_candidate : Run → Result (Option ℕ × Db) → Run
after_candidate run (ok (e, db')) = record run { executions = noted e run.executions; db = db' }
after_candidate run (err e) = record run { errors = e ∷ run.errors }

-- the error that is thrown is the first one
unfoldable pub first_error : List ApiError → Option ApiError
first_error [] = none
first_error (e ∷ []) = some e
first_error (e ∷ f ∷ rest) = first_error (f ∷ rest)

abbrev pub run_answer : (strict : Bool) → List ℕ → Option ApiError → Result (List ℕ)
run_answer true [] (some e) = err e
run_answer _ ids _ = ok ids

abbrev pub start : Db → Run
start db = record { executions = []; errors = []; db = db }

abbrev pub stop : (strict : Bool) → ApiError → Result (List ℕ)
stop true e = err e
stop false e = ok []

-- the parameters of a run: the clock, the age of a stale balance in seconds, the text of a key, and
-- who runs it why
module _ (compare_person_names : String → String → NameDecision) (now stale : ℕ)
    (reference : SweepKey → String) (actor : ℕ) (reason : String) where
  -- from the configuration on
  unfoldable pub sweep_sim :
      (rule_id sim_id : ℕ) → SweepRule → DeviceGroup → SimWallet → Db → Result (Option ℕ × Db)
  sweep_sim rule_id sim_id rule g s db =
      let config = (merchant_config rule.owner.merchant_id db).0 in
      let db' = (merchant_config rule.owner.merchant_id db).1 in
      let amount = sweep_amount now rule g config sim_id s db'.transfers in
      let key = key_of now rule_id sim_id rule in
      if leb_ℤ amount (pos 0)
      then ok (none, db')
      else dispatch_once now reference actor reason key rule config amount
          (find_by (λ e. same_key e.idempotency_key key) db'.sweeps) db'

  unfoldable pub sweep_candidate :
      (rule_id sim_id : ℕ) → SweepRule → Option SimWallet → Db → Result (Option ℕ × Db)
  sweep_candidate rule_id sim_id rule none db = ok (none, db)
  sweep_candidate rule_id sim_id rule (some s) db = do
    g ← or_throw (find rule.group_id db.groups) record_not_found
    (if is_sweepable now stale rule s (find s.device_id db.devices)
          && not (
              any (λ x. is_recent_execution now rule_id sim_id rule.minimum_interval_seconds x.1)
                db.sweeps)
        then sweep_sim rule_id sim_id rule g s db
        else ok (none, db))

  -- everything that was checked at the approval is checked again
  unfoldable pub execute_found :
      (rule_id sim_id : ℕ) → Option SweepRule → Db → Result (Option ℕ × Db)
  execute_found rule_id sim_id none db = ok (none, db)
  execute_found rule_id sim_id (some rule) db =
      if is_executable rule
      then (assert_group_access rule.owner.merchant_id rule.group_id db
          >> assert_destination_not_fleet rule.destination_phone db
          >> assert_approved_destination compare_person_names rule db
          >> sweep_candidate rule_id sim_id rule (find sim_id db.sims) db)
      else ok (none, db)

  -- `executeCandidate`: the execution, if there is one
  unfoldable pub execute_candidate : (rule_id sim_id : ℕ) → Db → Result (Option ℕ × Db)
  execute_candidate rule_id sim_id db =
      execute_found rule_id sim_id (find rule_id db.sweep_rules) db

  abbrev is_ready : (group : ℕ) → Option Device → Bool
  is_ready group none = false
  is_ready group (some d) =
      ((d.group_id == group) && is_online d.status)
      && (is_recent now 90000 d.last_heartbeat_at
          && (d.last_permissions_ok && d.last_accessibility_ok))

  -- the `where` of `executeRule`
  unfoldable pub is_candidate : SweepRule → Table Device → ℕ × SimWallet → Bool
  is_candidate rule devices (id, s) =
      (is_active_sim s.status && ltb_ℤ rule.high_water_minor s.main_balance_minor)
      && (is_recent now (stale * 1000) s.last_balance_at
          && is_ready rule.group_id (find s.device_id devices))

  abbrev is_richer : ℕ × SimWallet → ℕ × SimWallet → Bool
  is_richer x y = ltb_ℤ y.1.main_balance_minor x.1.main_balance_minor

  unfoldable pub candidates_of : SweepRule → Db → Table SimWallet
  candidates_of rule db = take 250 (sort is_richer (filter (is_candidate rule db.devices) db.sims))

  unfoldable pub execute_each : (rule_id : ℕ) → Table SimWallet → Run → Run
  execute_each rule_id [] run = run
  execute_each rule_id ((sim_id, _) ∷ rest) run =
      execute_each rule_id rest (after_candidate run (execute_candidate rule_id sim_id run.db))

  unfoldable pub execute_rule_found :
      (rule_id : ℕ) → (strict : Bool) → Option SweepRule → Db → Result (List ℕ) × Db
  execute_rule_found rule_id strict none db = (err not_found, db)
  execute_rule_found rule_id strict (some rule) db =
      if is_executable rule
      then (let run = execute_each rule_id (candidates_of rule db) (start db) in
          (run_answer strict run.executions (first_error run.errors), run.db))
      else (stop strict invalid_state, db)

  -- `executeRule`; the database is what is left, also when it throws. `executeNow` is strict.
  unfoldable pub execute_rule : (rule_id : ℕ) → (strict : Bool) → Db → Result (List ℕ) × Db
  execute_rule rule_id strict db =
      execute_rule_found rule_id strict (find rule_id db.sweep_rules) db

  abbrev ran_before : ℕ × SweepRule → ℕ × SweepRule → Bool
  ran_before (_, x) (_, y) = elim x.last_executed_at [
    | none ↦ is_some y.last_executed_at
    | some t ↦ elim y.last_executed_at [ none ↦ false | some u ↦ ltb t u ]
  ]

  unfoldable pub run_rules : Table SweepRule → Db → Db
  run_rules [] db = db
  run_rules ((id, _) ∷ rest) db = run_rules rest (execute_rule id false db).1

  -- `orchestrateApprovedRules`, the rules that have waited longest first
  unfoldable pub orchestrate_approved_rules : Db → Db
  orchestrate_approved_rules db =
      run_rules (take 500 (sort ran_before (filter (λ x. is_executable x.1) db.sweep_rules))) db
