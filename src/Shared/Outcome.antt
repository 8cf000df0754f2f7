-- ===== src/Shared/Outcome.antt =====
-- Results of the services. An `ApiException` or a thrown `Error` rolls the transaction back, so an
-- error carries no state.
use mathlib.Core.Path.{◌≡◌, refl, ap}
use mathlib.Core.Bool.{Bool, true, false}
use mathlib.Core.Option.{Option, none, some}

-- The codes of `ApiException`, and the errors thrown with a plain `Error`.
pub data ApiError : Type 0 where
  not_found invalid_state validation_error forbidden conflict : ApiError
  insufficient_merchant_balance no_physical_liquidity : ApiError
  duplicate_reference_conflict active_intent_exists alternate_destination_disabled : ApiError
  device_not_qualified financial_status_requires_spool duplicate_event_conflict : ApiError
  negative_posting unbalanced_journal crosses_environments record_not_found : ApiError

pub data Result {ℓ} (A : Type ℓ) : Type ℓ where
  ok : A → Result A
  err : ApiError → Result A

-- `if (!test) throw new ApiException(e)`, and the same for a row that is not there.
abbrev pub require : (test : Bool) → (thrown : ApiError) → Result (Unit {0})
require true thrown = ok tt
require false thrown = err thrown

abbrev pub or_throw {ℓ} : {A : Type ℓ} → (row : Option A) → (thrown : ApiError) → Result A
or_throw none thrown = err thrown
or_throw (some a) thrown = ok a

infixl 5 ◌>>=◌
abbrev pub ◌>>=◌ {ℓ κ} :
    {Row : Type ℓ} {Next : Type κ} → Result Row → (Row → Result Next) → Result Next
err thrown >>= rest = err thrown
ok row >>= rest = rest row

infixl 5 ◌>>◌
abbrev pub ◌>>◌ {κ} : {Next : Type κ} → Result (Unit {0}) → Result Next → Result Next
guard >> rest = guard >>= λ _. rest

-- a transaction that went through has gone through each of its steps
pub >>=-eq-ok {ℓ κ} :
    {Row : Type ℓ} {Next : Type κ} (step : Result Row) (rest : Row → Result Next) {end : Next}
    → (step >>= rest) ≡ ok end
    → (row : Row) × (step ≡ ok row) × (rest row ≡ ok end)
>>=-eq-ok (err thrown) rest went = cc
>>=-eq-ok (ok row) rest went = (row, refl, went)

pub require-eq-ok :
    (test : Bool) (thrown : ApiError) {u : Unit {0}} → require test thrown ≡ ok u → test ≡ true
require-eq-ok true thrown h = refl
require-eq-ok false thrown h = cc

pub ok_injective {ℓ} : {A : Type ℓ} {a b : A} → ok a ≡ ok b → a ≡ b
ok_injective h = cc

pub or_throw-eq-ok {ℓ} :
    {A : Type ℓ} (o : Option A) (e : ApiError) {a : A} → or_throw o e ≡ ok a → o ≡ some a
or_throw-eq-ok (some b) e h = ap some (ok_injective h)
or_throw-eq-ok none e h = cc
