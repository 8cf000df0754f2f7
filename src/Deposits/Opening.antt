-- ===== src/Deposits/Opening.antt =====
-- apps/api/src/deposits/deposits.service.ts, `initialize`: what holds of the deposits that it opens.
use Prim.Native.String.{String}
use pay.Shared.{
  ℕ, ◌+◌, ◌*◌, ◌≤◌, ◌≡◌, refl, sym, ap, subst, ◌∙◌, Bool, true, false, not, ◌&&◌, inl, inr,
  Bool-cases, Option, none, some, List, [], ◌∷◌, find, validation_error, active_intent_exists,
  ==_refl, any, All, Table, modify, create, &&-false, Result, ok, ◌>>◌, require, ApiError,
  >>=-eq-ok, require-eq-ok, ok_injective, arith,
}
use pay.Shared.Keys.{All-imp}
use pay.Domain.{Environment, test, FinancialContext}
use pay.Ledger.{credit_deposit}
use pay.Store.{Db, DepositIntent, MerchantConfig}
use pay.Deposits.Intents.{
  TestScenario, late, duplicate, ambiguous, InitializeTransactionInput, merchant_config,
  with_config, config_or_default, is_active, is_active_of, within_limits, new_deposit, actual_minor,
  paid_in_test, first_copy, paid_rows, keep_receipt, pay_in_test, apply_test_scenario, simulate,
  insert_deposit, initialize,
}
use pay.Deposits.Lapsing.{IsInOrder}

-- two active deposits of one customer
abbrev pub clashes : DepositIntent → DepositIntent → Bool
clashes a b = is_active a.status && is_active_of a.owner a.customer_id b

-- no customer has two active deposits with a merchant in one environment
abbrev pub HasOneActive : Table DepositIntent → Type 0
HasOneActive [] = Unit
HasOneActive ((id, d) ∷ t) = All (λ x. clashes d x.1 ≡ false) t × HasOneActive t

none-is : {A : Type 0} (p : A → Bool) (xs : List A) → any p xs ≡ false → All (λ x. p x ≡ false) xs
unfolding any
none-is p [] h = tt
none-is p (x ∷ xs) h = elim (Bool-cases (p x)) [
  | inl e ↦ let never : true ≡ false = rw e at h in cc
  | inr e ↦ (e, none-is p xs (rw e at h))
]

-- what the simulator keeps of the new deposit
abbrev pub IsSameIntent : (before after : DepositIntent) → Type 0
IsSameIntent before after =
    (after.owner ≡ before.owner)
    × (after.customer_id ≡ before.customer_id)
    × (after.amount_minor ≡ before.amount_minor)
    × (after.sim_wallet_id ≡ before.sim_wallet_id)
    × IsInOrder after

guarded :
    {A : Type 0} (b c : Bool) (e f : ApiError) (x y : A)
    → (require b e >> require c f >> ok x) ≡ ok y
    → x ≡ y
guarded true true e f x y h = ok_injective h
guarded true false e f x y h = cc
guarded false c e f x y h = cc

module _ (now event_id : ℕ) (provider_id : String) (id : ℕ) (d : DepositIntent)
    (order : IsInOrder d) (grace : now ≤ d.late_grace_ends_at) (t : Table DepositIntent) where
  -- the deposits are those of before, with the new one in another state
  IsOpenedIn : Db → Type 0
  IsOpenedIn db = (d' : DepositIntent) × (db.deposits ≡ (id, d') ∷ t) × IsSameIntent d d'

  keep_receipt-deposits :
      (s : TestScenario) (db : Db) (kept : Option ℕ × Db)
      → keep_receipt now event_id provider_id s d db ≡ ok kept
      → kept.1.deposits ≡ db.deposits
  keep_receipt-deposits duplicate db kept went =
      ap (λ k. k.1.deposits)
        (sym (guarded _ _ _ _ (first_copy now event_id provider_id d db) kept went))
  keep_receipt-deposits s db kept went = ap (λ k. k.1.deposits) (sym (ok_injective went))

  -- an update of the new deposit
  opened-modify :
      (f : DepositIntent → DepositIntent) (db : Db) (before : Table DepositIntent)
      → db.deposits ≡ modify id f before
      → before ≡ (id, d) ∷ t
      → IsSameIntent d (f d)
      → IsOpenedIn db
  unfolding IsOpenedIn modify
  opened-modify f db before after was same =
      (f d, after ∙ ap (modify id f) was ∙ rw (==_refl id) refl, same)

  opened-pay :
      (s : TestScenario) (db db' : Db)
      → db.deposits ≡ (id, d) ∷ t
      → pay_in_test now event_id provider_id s id d db ≡ ok db'
      → IsOpenedIn db'
  unfolding pay_in_test
  opened-pay s db db' was went =
      let (kept, receipt, rest) = >>=-eq-ok (keep_receipt now event_id provider_id s d db) _ went in
      let (books', _, done) =
        >>=-eq-ok (credit_deposit d.owner id (actual_minor s d) kept.1.books)
          (λ b. ok (paid_rows provider_id s id d kept b)) rest in
      opened-modify (paid_in_test provider_id (actual_minor s d) kept.0) db' kept.1.deposits
        (sym
          (ap (λ b. b.deposits) (ok_injective {a = paid_rows provider_id s id d kept books'} done)))
        (keep_receipt-deposits s db kept receipt ∙ was) (refl, refl, refl, refl, order)

  opened-simulate :
      (env : Environment) (o : Option TestScenario) (db db' : Db)
      → db.deposits ≡ (id, d) ∷ t
      → simulate now event_id provider_id env o id d db ≡ ok db'
      → IsOpenedIn db'
  unfolding apply_test_scenario IsOpenedIn
  opened-simulate test (some late) db db' was went =
      opened-modify _ db' db.deposits (ap (λ b. b.deposits) (sym (ok_injective went))) was
        (refl, refl, refl, refl, ground arith)
  opened-simulate test (some ambiguous) db db' was went =
      opened-modify _ db' db.deposits (ap (λ b. b.deposits) (sym (ok_injective went))) was
        (refl, refl, refl, refl, order)
  opened-simulate test (some s) db db' was went = opened-pay s db db' was went
  opened-simulate env o db db' was went =
      (d, ap (λ b. b.deposits) (sym (ok_injective went)) ∙ was, (refl, refl, refl, refl, order))

config-deposits :
    (m : ℕ) (o : Option MerchantConfig) (db : Db) → (with_config m o db).deposits ≡ db.deposits
config-deposits m none db = refl
config-deposits m (some c) db = refl

config-next_id :
    (m : ℕ) (o : Option MerchantConfig) (db : Db) → (with_config m o db).next_id ≡ db.next_id
config-next_id m none db = refl
config-next_id m (some c) db = refl

not-true : (b : Bool) → not b ≡ true → b ≡ false
not-true true h = cc
not-true false h = refl

-- the times of a new deposit
new_deposit-IsInOrder :
    (now : ℕ) (c : MerchantConfig)
    → now + c.deposit_countdown_seconds * 1000
      ≤ now + c.deposit_countdown_seconds * 1000 + c.deposit_late_grace_seconds * 1000
new_deposit-IsInOrder now c = omega arith

new_deposit-grace :
    (now : ℕ) (c : MerchantConfig)
    → now ≤ now + c.deposit_countdown_seconds * 1000 + c.deposit_late_grace_seconds * 1000
new_deposit-grace now c = omega arith

no_clash :
    (b : Bool) {auth auth' : FinancialContext} {customer customer' : String} (d : DepositIntent)
    → auth' ≡ auth
    → customer' ≡ customer
    → is_active_of auth customer d ≡ false
    → (b && is_active_of auth' customer' d) ≡ false
no_clash b d same_auth same_customer h = rw (same_auth, same_customer, h) (&&-false b)

module _ (now event_id : ℕ) (provider_id : String) (trim : String → String)
    (auth : FinancialContext) (input : InitializeTransactionInput) (sim_choice : Result ℕ)
    (db db' : Db) where
  abbrev pub IsOpened : DepositIntent → Type 0
  IsOpened d =
      (db'.deposits ≡ (db.next_id, d) ∷ db.deposits)
      × (d.owner ≡ auth)
      × (d.customer_id ≡ input.customer_id)
      × (d.amount_minor ≡ input.amount_minor)
      × (within_limits (merchant_config auth.merchant_id db).0 d.amount_minor ≡ true)
      × (sim_choice ≡ ok d.sim_wallet_id)
      × IsInOrder d

  -- A request for a deposit that goes through adds one deposit of the caller and the customer, with
  -- the asked amount inside the merchant's limits, on the SIM that the selection chose, whose grace
  -- does not end before its countdown. No customer has two active deposits afterwards, when none had
  -- before, whatever the simulator does with the new one.
  pub initialize-opens_one :
      HasOneActive db.deposits
      → initialize now event_id provider_id trim auth input sim_choice db ≡ ok db'
      → HasOneActive db'.deposits × ((d : DepositIntent) × IsOpened d)
  unfolding initialize merchant_config IsOpenedIn create
  initialize-opens_one one went =
      let row = find auth.merchant_id db.merchant_configs in
      let config = config_or_default row in
      let (_, limits, asked) =
        >>=-eq-ok
          (require (within_limits (config_or_default row) input.amount_minor) validation_error) _
          went in
      let (_, alone, chosen) =
        >>=-eq-ok
          (require
            (not (
              any (λ x. is_active_of auth input.customer_id x.1)
                (with_config auth.merchant_id row db).deposits))
            active_intent_exists)
          _ asked in
      let (sim, choice, last) = >>=-eq-ok sim_choice _ chosen in
      let m = with_config auth.merchant_id row db in
      let d = new_deposit now trim auth input (config_or_default row) sim in
      let (d', rows, same) =
        opened-simulate now event_id provider_id m.next_id d (new_deposit-IsInOrder now config)
          (new_deposit-grace now config) m.deposits auth.environment input.test_scenario
          (insert_deposit d m) db' refl last in
      let (owner, customer, amount, same_sim, order) = same in
      let quiet = none-is _ m.deposits (not-true _ (require-eq-ok _ active_intent_exists alone)) in
      let rows' : db'.deposits ≡ (db.next_id, d') ∷ db.deposits =
        rows
        ∙ ap (λ id. (id, d') ∷ m.deposits) (config-next_id auth.merchant_id row db)
        ∙ ap (λ t. (db.next_id, d') ∷ t) (config-deposits auth.merchant_id row db) in
      let quiet' =
        subst (All (λ x. is_active_of auth input.customer_id x.1 ≡ false))
          (config-deposits auth.merchant_id row db) quiet in
      let alone' : HasOneActive ((db.next_id, d') ∷ db.deposits) = (
        All-imp db.deposits (λ x h _. no_clash (is_active d'.status) x.1 owner customer h) quiet'
            quiet',
        one,
      ) in
      let in_limits =
        subst (λ a. within_limits config a ≡ true) (sym amount)
          (require-eq-ok _ validation_error limits) in
      (
        subst HasOneActive (sym rows') alone',
        (d', (rows', owner, customer, amount, in_limits, choice ∙ ap ok (sym same_sim), order)),
      )
