-- ===== src/Sweeps/Failure.antt =====
-- apps/api/src/sweeps/sweeps.service.ts, `executeRule`: a run that fails has dispatched nothing.
use Prim.Native.String.{String}
use pay.Shared.{
  ℕ, ◌≡◌, refl, sym, ap, subst, ◌∙◌, true, inl, inr, Option, none, some, List, [], ◌∷◌, if-cases,
  ◌&&◌, not, find, any, Table, Result, ok, err, ApiError, ◌>>◌, >>=-eq-ok, or_throw, ok_injective,
  record_not_found,
}
use pay.Shared.Int.{ℤ, pos, leb_ℤ}
use pay.Domain.{NameDecision}
use pay.Store.{Db, SweepRule, SweepKey, SweepExecution, SimWallet, DeviceGroup, MerchantConfig}
use pay.Contracts.{amount_to_minor, minor_to_amount}
use pay.Withdrawals.{queue_transfer}
use pay.Deposits.Intents.{merchant_config, config_or_default, with_config}
use pay.Sweeps.Checks.{
  assert_group_access, assert_destination_not_fleet, assert_approved_destination,
}
use pay.Sweeps.Execution.{
  is_executable, sweep_amount, is_recent_execution, dispatch_sweep, dispatch_once, sweep_transfer,
  sweep_options, record_execution,
}
use pay.Sweeps.Runs.{
  is_sweepable, sweep_sim, sweep_candidate, execute_found, execute_candidate, candidates_of, Run,
  after_candidate, execute_each, first_error, run_answer, start, execute_rule_found, execute_rule,
}
use pay.Sweeps.Safety.{none-is-some}

-- the money and the work of two databases are the same
abbrev pub IsUntouched : (before after : Db) → Type 0
IsUntouched a b =
    (b.books ≡ a.books)
    × (b.sims ≡ a.sims)
    × (b.transfers ≡ a.transfers)
    × (b.jobs ≡ a.jobs)
    × (b.sweeps ≡ a.sweeps)

IsUntouched-refl : (a : Db) → IsUntouched a a
IsUntouched-refl a = (refl, refl, refl, refl, refl)

IsUntouched-trans : (a b c : Db) → IsUntouched a b → IsUntouched b c → IsUntouched a c
IsUntouched-trans a b c (p, q, r, s, t) (p', q', r', s', t') =
    (p' ∙ p, q' ∙ q, r' ∙ r, s' ∙ s, t' ∙ t)

-- a transaction that ends without an execution in the database `a`
ended :
    (before a b : Db)
    → IsUntouched before a
    → ◌≡◌ {A = Result (Option ℕ × Db)} (ok (none, a)) (ok (none, b))
    → IsUntouched before b
ended before a b same h = subst (IsUntouched before) (ap (λ r. r.1) (ok_injective h)) same

config-IsUntouched :
    (m : ℕ) (o : Option MerchantConfig) (db : Db) → IsUntouched db (with_config m o db)
config-IsUntouched m none db = (refl, refl, refl, refl, refl)
config-IsUntouched m (some c) db = (refl, refl, refl, refl, refl)

module _ (compare_person_names : String → String → NameDecision) (now stale : ℕ)
    (reference : SweepKey → String) (actor : ℕ) (reason : String) (rule_id : ℕ) where
  dispatched :
      {A : Type 0} (key : SweepKey) (rule : SweepRule) (c : MerchantConfig) (amount : ℤ)
      (o : Option (ℕ × SweepExecution)) (db db' : Db)
      → dispatch_once now reference actor reason key rule c amount o db ≡ ok (none, db')
      → A
  unfolding dispatch_once dispatch_sweep
  dispatched key rule c amount (some (id, e)) db db' h = none-is-some (sym h)
  dispatched key rule c amount none db db' h =
      let (sent, _, on_sent) = >>=-eq-ok (amount_to_minor (minor_to_amount amount)) _ h in
      let (queued, _, on_queued) =
        >>=-eq-ok
          (queue_transfer now rule.owner (sweep_transfer reference key rule sent)
            (sweep_options rule) c "" (ok key.sim_id) db)
          _ on_sent in
      let (t, _, found) =
        >>=-eq-ok (or_throw (find db.next_id queued.transfers) record_not_found)
          (λ t. ok (
            some queued.next_id,
            record_execution now key amount db.next_id actor reason t.status queued,
          ))
          on_queued in
      none-is-some (sym found)

  module _ (sim_id : ℕ) (db db' : Db) where
    sim-IsUntouched :
        (rule : SweepRule) (g : DeviceGroup) (s : SimWallet)
        → sweep_sim compare_person_names now stale reference actor reason rule_id sim_id rule g s db
          ≡ ok (none, db')
        → IsUntouched db db'
    unfolding sweep_sim merchant_config
    sim-IsUntouched rule g s h =
        let row = find rule.owner.merchant_id db.merchant_configs in
        let db1 = with_config rule.owner.merchant_id row db in
        let amount = sweep_amount now rule g (config_or_default row) sim_id s db1.transfers in
        elim (if-cases (leb_ℤ amount (pos 0)) (ok (none, db1)) _ _ h) [
          | inl (_, e) ↦ ended db db1 db' (config-IsUntouched rule.owner.merchant_id row db) e
          | inr (_, e) ↦ dispatched _ rule (config_or_default row) amount _ db1 db' e
        ]

    candidate-IsUntouched :
        (rule : SweepRule) (o : Option SimWallet)
        → sweep_candidate compare_person_names now stale reference actor reason rule_id sim_id rule
            o db
          ≡ ok (none, db')
        → IsUntouched db db'
    unfolding sweep_candidate
    candidate-IsUntouched rule none h = ended db db db' (IsUntouched-refl db) h
    candidate-IsUntouched rule (some s) h =
        let recent =
          any (λ x. is_recent_execution now rule_id sim_id rule.minimum_interval_seconds x.1)
            db.sweeps in
        let (g, _, rest) =
          >>=-eq-ok (or_throw (find rule.group_id db.groups) record_not_found) _ h in
        elim (if-cases (is_sweepable now stale rule s (find s.device_id db.devices) && not recent)
          (sweep_sim compare_person_names now stale reference actor reason rule_id sim_id rule g s
            db)
          (ok (none, db)) _ rest) [
            | inl (_, e) ↦ sim-IsUntouched rule g s e
            | inr (_, e) ↦ ended db db db' (IsUntouched-refl db) e
          ]

    found-IsUntouched :
        (o : Option SweepRule)
        → execute_found compare_person_names now stale reference actor reason rule_id sim_id o db
          ≡ ok (none, db')
        → IsUntouched db db'
    unfolding execute_found
    found-IsUntouched none h = ended db db db' (IsUntouched-refl db) h
    found-IsUntouched (some rule) h =
        let checks =
          assert_group_access rule.owner.merchant_id rule.group_id db
          >> assert_destination_not_fleet rule.destination_phone db
          >> assert_approved_destination compare_person_names rule db in
        elim (if-cases (is_executable rule) _ (ok (none, db)) _ h) [
          | inl (_, e) ↦
              let (_, _, rest) =
                >>=-eq-ok checks
                  (λ _.
                    sweep_candidate compare_person_names now stale reference actor reason rule_id
                      sim_id rule (find sim_id db.sims) db)
                  e in
              candidate-IsUntouched rule (find sim_id db.sims) rest
          | inr (_, e) ↦ ended db db db' (IsUntouched-refl db) e
        ]

  after-IsUntouched :
      (sim_id : ℕ) (run : Run) (r : Result (Option ℕ × Db))
      → execute_candidate compare_person_names now stale reference actor reason rule_id sim_id
          run.db
        ≡ r
      → (after_candidate run r).executions ≡ []
      → (run.executions ≡ []) × IsUntouched run.db (after_candidate run r).db
  unfolding after_candidate execute_candidate
  after-IsUntouched sim_id run (err e) ran quiet = (quiet, IsUntouched-refl run.db)
  after-IsUntouched sim_id run (ok (none, db')) ran quiet =
      (quiet, found-IsUntouched sim_id run.db db' (find rule_id run.db.sweep_rules) ran)
  after-IsUntouched sim_id run (ok (some id, db')) ran quiet = cc

  each-IsUntouched :
      (rows : Table SimWallet) (run : Run)
      → (execute_each compare_person_names now stale reference actor reason rule_id rows
          run).executions
        ≡ []
      → (run.executions ≡ [])
        × IsUntouched run.db
            (execute_each compare_person_names now stale reference actor reason rule_id rows run).db
  unfolding execute_each
  each-IsUntouched [] run quiet = (quiet, IsUntouched-refl run.db)
  each-IsUntouched ((sim_id, s) ∷ rest) run quiet =
      let result =
        execute_candidate compare_person_names now stale reference actor reason rule_id sim_id
          run.db in
      let (still, later) = each-IsUntouched rest (after_candidate run result) quiet in
      let (first, same) = after-IsUntouched sim_id run result refl still in
      (
        first,
        IsUntouched-trans run.db (after_candidate run result).db
            (execute_each compare_person_names now stale reference actor reason rule_id rest
              (after_candidate run result)).db
            same later,
      )

  run_answer-err :
      (ids : List ℕ) (o : Option ApiError) (e : ApiError) → run_answer true ids o ≡ err e → ids ≡ []
  run_answer-err [] o e h = refl
  run_answer-err (id ∷ ids) o e h = cc

  rule_found-IsUntouched :
      (o : Option SweepRule) (db db' : Db) (e : ApiError)
      → execute_rule_found compare_person_names now stale reference actor reason rule_id true o db
        ≡ (err e, db')
      → IsUntouched db db'
  unfolding execute_rule_found
  rule_found-IsUntouched none db db' e h =
      subst (IsUntouched db) (ap (λ r. r.1) h) (IsUntouched-refl db)
  rule_found-IsUntouched (some rule) db db' e h =
      let run =
        execute_each compare_person_names now stale reference actor reason rule_id
          (candidates_of compare_person_names now stale reference actor reason rule db)
          (start db) in
      elim (if-cases (is_executable rule)
        (run_answer true run.executions (first_error run.errors), run.db) _ _ h) [
          | inl (_, done) ↦
              subst (IsUntouched db) (ap (λ r. r.1) done)
                (each-IsUntouched
                  (candidates_of compare_person_names now stale reference actor reason rule db)
                  (start db)
                  (run_answer-err run.executions (first_error run.errors) e (ap (λ r. r.0) done))).1
          | inr (_, done) ↦ subst (IsUntouched db) (ap (λ r. r.1) done) (IsUntouched-refl db)
        ]

  -- When the run that staff asked for fails, no SIM has been swept by it: the books, the SIMs, the
  -- transfers, the jobs and the sweeps are those of before.
  pub execute_rule-fails_clean :
      (db db' : Db) (e : ApiError)
      → execute_rule compare_person_names now stale reference actor reason rule_id true db
        ≡ (err e, db')
      → IsUntouched db db'
  unfolding execute_rule
  execute_rule-fails_clean db db' e h =
      rule_found-IsUntouched (find rule_id db.sweep_rules) db db' e h
