-- ===== src/Sweeps/Sent.antt =====
-- apps/api/src/sweeps/sweeps.service.ts, `executeCandidate`: what goes out, and to whom.
use Prim.Native.String.{String}
use pay.Shared.{
  suc, ◌+◌, le→leb, ℕ, ◌≤◌, ◌≡◌, ◌≢◌, refl, sym, ap, ◌∙◌, ◌⊎◌, inl, inr, false, Option, none, some,
  some_injective, find, create, true, find-create_self, ok, or_throw, >>=-eq-ok, ok_injective,
  arith, subst, &&-both,
}
use pay.Shared.Int.{ℤ, pos, negsuc, leb_ℤ}
use pay.Domain.{Environment, live}
use pay.Deposits.Intents.{with_config}
use pay.Contracts.RoundTrip.{amount_to_minor-minor_to_amount}
use pay.Store.{
  Db, MerchantConfig, SweepKey, SweepRule, SweepExecution, SimWallet, Transfer, TransferStatus,
}
use pay.Withdrawals.{queue_transfer, find_by}
use pay.Withdrawals.Queueing.{queue_transfer-reserves}
use pay.Sweeps.Rules.{is_approved}
use pay.Sweeps.Execution.{
  is_executable, is_live_environment, dispatch_sweep, dispatch_once, sweep_transfer, sweep_options,
  new_execution, same_key,
}

-- The execution: an earlier one of the same key, with which no transfer and no money is new, or
-- a new one of this amount for a new transfer, which waits in the queue and pays this very amount
-- from the SIM to the destination of the rule, for the rule's owner.
abbrev pub IsSent : SweepRule → SweepKey → ℤ → ℕ → Db → Db → Type 0
IsSent rule key amount id db db' =
    ((e : SweepExecution) × (find_by (λ e. same_key e.idempotency_key key) db.sweeps ≡ some (id, e))
      × (db'.books ≡ db.books)
      × (db'.transfers ≡ db.transfers))
    ⊎ ((t : Transfer) × (x : SweepExecution) × (find db.next_id db'.transfers ≡ some t)
        × (t.status ≡ TransferStatus.queued)
        × (t.owner ≡ rule.owner)
        × (t.sim_wallet_id ≡ some key.sim_id)
        × (t.destination_phone ≡ rule.destination_phone)
        × (t.expected_name ≡ rule.destination_name)
        × (t.amount_minor ≡ amount)
        × (find id db'.sweeps ≡ some x)
        × (x.transfer_id ≡ db.next_id)
        × (x.amount_minor ≡ amount))

true-false : true ≢ false
true-false h = cc

pub leb-pos : (a : ℤ) → leb_ℤ a (pos 0) ≡ false → (n : ℕ) × (a ≡ pos n) × (1 ≤ n)
leb-pos (pos n) h = (n, refl, ground arith)
leb-pos (negsuc n) h =
    let never : true ≡ false = sym (le→leb 0 (0 + suc n) (omega arith)) ∙ h in
    elim (true-false never) [ ]

is_live-live : (e : Environment) → is_live_environment e ≡ true → e ≡ live
is_live-live e h = ground arith

module _ (now : ℕ) (reference : SweepKey → String) (actor : ℕ) (reason : String) (key : SweepKey)
    (rule : SweepRule) (config : MerchantConfig) (n id : ℕ) (db db' : Db) (s : SimWallet)
    (is_live : rule.owner.environment ≡ live) (wallet : find key.sim_id db.sims ≡ some s)
    (more : 1 ≤ n) where
  dispatch_sweep-IsSent :
      dispatch_sweep now reference actor reason key rule config (pos n) db ≡ ok (some id, db')
      → IsSent rule key (pos n) id db db'
  unfolding dispatch_sweep
  dispatch_sweep-IsSent h =
      let sent = rw (amount_to_minor-minor_to_amount n more) at h in
      let (x, queued, rest) =
        >>=-eq-ok
          (queue_transfer now rule.owner (sweep_transfer reference key rule (pos n))
            (sweep_options rule) config "" (ok key.sim_id) db)
          _ sent in
      let (t, found, last) = >>=-eq-ok (or_throw (find db.next_id x.transfers) _) _ rest in
      let result = ok_injective last in
      let (_, _, (u, paid, ordered), _) =
        queue_transfer-reserves now rule.owner (sweep_transfer reference key rule (pos n))
          (sweep_options rule) config "" key.sim_id db x s is_live wallet queued in
      let end = ap (λ (p : Option ℕ × Db). p.1) result in
      let here : x.next_id ≡ id = some_injective (ap (λ (p : Option ℕ × Db). p.0) result) in
      let made = new_execution now key (pos n) db.next_id t.status in
      let rows = create x.next_id made x.sweeps in
      inr (
        u,
        made,
        subst (λ (y : Db). find db.next_id y.transfers ≡ some u) end paid,
        ordered.0,
        ordered.1,
        ordered.2,
        ordered.3,
        ordered.4,
        ordered.5,
        ap (λ (y : Db). find id y.sweeps) (sym end)
            ∙ (ap (λ (i : ℕ). find i rows) (sym here) ∙ find-create_self x.next_id made x.sweeps),
        refl,
        refl,
      )

  pub dispatch_once-IsSent :
      (o : Option (ℕ × SweepExecution))
      → find_by (λ e. same_key e.idempotency_key key) db.sweeps ≡ o
      → dispatch_once now reference actor reason key rule config (pos n) o db ≡ ok (some id, db')
      → IsSent rule key (pos n) id db db'
  unfolding dispatch_once
  dispatch_once-IsSent (some (i, e)) row h =
      let result = ok_injective h in
      let same : i ≡ id = some_injective (ap (λ (p : Option ℕ × Db). p.0) result) in
      let end = ap (λ (p : Option ℕ × Db). p.1) (sym result) in
      inl (
        e,
        row ∙ ap (λ (i : ℕ). some (i, e)) same,
        ap (λ (y : Db). y.books) end,
        ap (λ (y : Db). y.transfers) end,
      )
  dispatch_once-IsSent none row h = dispatch_sweep-IsSent h

-- the configuration that is created leaves the SIMs, the money, the sweeps and the ids
with_config-IsSent :
    (m : ℕ) (o : Option MerchantConfig) (rule : SweepRule) (key : SweepKey) (amount : ℤ) (id : ℕ)
    (db db' : Db)
    → IsSent rule key amount id (with_config m o db) db'
    → IsSent rule key amount id db db'
with_config-IsSent m none rule key amount id db db' h = h
with_config-IsSent m (some c) rule key amount id db db' h = h

config-sims : (m : ℕ) (o : Option MerchantConfig) (db : Db) → (with_config m o db).sims ≡ db.sims
config-sims m none db = refl
config-sims m (some c) db = refl

live_rule : (rule : SweepRule) → is_executable rule ≡ true → rule.owner.environment ≡ live
unfolding is_executable
live_rule rule h =
    is_live-live rule.owner.environment
      (&&-both rule.enabled _ (&&-both (is_approved rule.status) _ h).1).1

-- what `sweepSim` sends for the amount that it has found
pub sweep_sim-IsSent :
    (now : ℕ) (reference : SweepKey → String) (actor : ℕ) (reason : String) (key : SweepKey)
    (rule : SweepRule) (config : MerchantConfig) (amount : ℤ) (id m : ℕ) (o : Option MerchantConfig)
    (db db' : Db) (s : SimWallet)
    → is_executable rule ≡ true
    → find key.sim_id db.sims ≡ some s
    → leb_ℤ amount (pos 0) ≡ false
    → dispatch_once now reference actor reason key rule config amount
        (find_by (λ e. same_key e.idempotency_key key) (with_config m o db).sweeps)
        (with_config m o db)
      ≡ ok (some id, db')
    → IsSent rule key amount id db db'
sweep_sim-IsSent now reference actor reason key rule config amount id m o db db' s executable wallet
      left h =
    let (n, same, more) = leb-pos amount left in
    let start = with_config m o db in
    with_config-IsSent m o rule key amount id db db' (
      subst (λ (a : ℤ). IsSent rule key a id start db') (sym same)
        (dispatch_once-IsSent now reference actor reason key rule config n id start db' s
          (live_rule rule executable) (ap (find key.sim_id) (config-sims m o db) ∙ wallet) more
          (find_by (λ e. same_key e.idempotency_key key) start.sweeps) refl
          (subst
            (λ (a : ℤ).
              dispatch_once now reference actor reason key rule config a
                (find_by (λ e. same_key e.idempotency_key key) start.sweeps) start
              ≡ ok (some id, db'))
            same h)))
