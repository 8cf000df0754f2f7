-- ===== src/Idempotency.antt =====
-- apps/api/src/idempotency/idempotency.service.ts: `execute`, over any callback.
pub mod Once
mod Tests
use Prim.Native.String.{String}
use pay.Shared.{
  ℕ, Bool, true, false, not, ◌&&◌, ◌||◌, Option, none, some, List, [], ◌∷◌, ◌++◌, ◌==◌,
  if◌then◌else◌, any, Result, ok, err, ◌>>=◌, str_eq, validation_error,
  duplicate_reference_conflict, ◌or_default◌,
}
use pay.Domain.{FinancialContext, same_owner}
use pay.Parsers.Phone.{codes, starts_with}

-- A client's key, or `__reference__:` with the request's reference. The prefix is refused in a
-- client's key, so the two never meet.
pub data Key : Type 0 where
  client reference : String → Key

pub record Identity : Type 0 where
  pub operation : String
  pub key : Key

abbrev pub same_key : Key → Key → Bool
same_key (client a) (client b) = str_eq a b
same_key (reference a) (reference b) = str_eq a b
same_key (client a) (reference b) = false
same_key (reference a) (client b) = false

abbrev pub same_identity : Identity → Identity → Bool
same_identity a b = str_eq a.operation b.operation && same_key a.key b.key

-- `IdempotencyRecord` with a stored response of type `V`; the table lists the oldest first
pub record IdempotencyRecord {κ} (V : Type κ) : Type κ where
  pub owner : FinancialContext
  pub identity : Identity
  pub request_hash : ℕ
  pub response : V

-- `IdempotencyOptions` without its callbacks, which are arguments of `execute`
pub record IdempotencyOptions : Type 0 where
  pub auth : FinancialContext
  pub operation : String
  pub key : String
  pub reference_key : Option String
  pub reference_operation : Option String
  pub request_hash : ℕ

-- `recordIdentities`
abbrev pub record_identities : IdempotencyOptions → List Identity
record_identities o =
    record { operation = o.operation; key = client o.key } ∷ elim o.reference_key [
      | none ↦ []
      | some r ↦
          record { operation = o.reference_operation or_default o.operation; key = reference r }
          ∷ []
    ]

module _ {κ} {V : Type κ} where
  abbrev pub is_record_of : FinancialContext → List Identity → IdempotencyRecord V → Bool
  is_record_of auth ids r = same_owner auth r.owner && any (λ i. same_identity i r.identity) ids

  -- `findFirst`, by `createdAt` ascending
  unfoldable pub first :
      (IdempotencyRecord V → Bool) → List (IdempotencyRecord V) → Option (IdempotencyRecord V)
  first p [] = none
  first p (r ∷ rs) = if p r then some r else first p rs

  unfoldable pub records_for : FinancialContext → ℕ → V → List Identity → List (IdempotencyRecord V)
  records_for auth hash response [] = []
  records_for auth hash response (i ∷ ids) =
      record { owner = auth; identity = i; request_hash = hash; response = response }
      ∷ records_for auth hash response ids

  -- the identities that have no record yet: `filter` and `skipDuplicates`
  unfoldable pub missing :
      FinancialContext → List (IdempotencyRecord V) → List Identity → List Identity
  missing auth table [] = []
  missing auth table (i ∷ ids) =
      if any (is_record_of auth (i ∷ [])) table
      then missing auth table ids
      else i ∷ missing auth table ids

  -- what `execute` does with the oldest record of the request, or without one; a replay rebuilds the
  -- response from the stored one, or refuses it
  abbrev pub answer {ℓ μ} :
      {S : Type ℓ} {R : Type μ}
      → IdempotencyOptions
      → (run : S → Result (R × S)) → (store_result : R → V)
      → (replay_result : V → S → Result (R × S)) → S
      → List (IdempotencyRecord V)
      → Option (IdempotencyRecord V)
      → Result (Bool × R × S × List (IdempotencyRecord V))
  answer o run store_result replay_result s table (some e) =
      if not (e.request_hash == o.request_hash)
      then err duplicate_reference_conflict
      else (replay_result e.response s >>= λ (response, s'). ok (
        true,
        response,
        s',
        table
            ++ records_for o.auth o.request_hash e.response
                (missing o.auth table (record_identities o)),
      ))
  answer o run store_result replay_result s table none = run s >>= λ (response, s'). ok (
    false,
    response,
    s',
    table ++ records_for o.auth o.request_hash (store_result response) (record_identities o),
  )

  -- `execute`: `run` is the callback with the rest of the transaction's state. Without the callbacks
  -- on the stored form, `store_result` gives the response itself and `replay_result` gives it back.
  unfoldable pub execute {ℓ μ} :
      {S : Type ℓ} {R : Type μ}
      → IdempotencyOptions
      → (run : S → Result (R × S)) → (store_result : R → V)
      → (replay_result : V → S → Result (R × S)) → S
      → List (IdempotencyRecord V)
      → Result (Bool × R × S × List (IdempotencyRecord V))
  execute o run store_result replay_result s table =
      if starts_with (codes "__reference__:") (codes o.key)
      then err validation_error
      else answer o run store_result replay_result s table
          (first (is_record_of o.auth (record_identities o)) table)
