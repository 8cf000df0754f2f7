-- ===== src/Idempotency/Tests.antt =====
-- A request that is repeated, with the same payload and with another one.
use pay.Shared.{
  ℕ, ◌+◌, ◌-◌, ◌++◌, ◌∷◌, ◌≡◌, ◌≢◌, refl, Bool, true, false, none, some, List, [], Result, ok, err,
  any, arith,
}
use pay.Domain.{same_owner}
use pay.Samples.{shop}
use pay.Parsers.Phone.{starts_with}
use pay.Idempotency.{
  client, IdempotencyRecord, IdempotencyOptions, first, records_for, missing, execute,
}
use pay.Idempotency.Once.{execute-once}

abbrev request : IdempotencyOptions
request = record {
  auth = shop;
  operation = "withdrawal.create";
  key = "k-1";
  reference_key = some "W-1";
  reference_operation = none;
  request_hash = 41;
}

-- a counter, whose value is the response
abbrev count : ℕ → Result (ℕ × ℕ)
count n = ok (n, n + 1)

-- the stored form is the response with a mark, which the replay takes off
abbrev store_marked : ℕ → ℕ
store_marked n = n + 100

abbrev replay_marked : ℕ → ℕ → Result (ℕ × ℕ)
replay_marked v n = ok (v - 100, n)

abbrev table_of : Result (Bool × ℕ × ℕ × List (IdempotencyRecord ℕ)) → List (IdempotencyRecord ℕ)
table_of (ok (_, _, _, table)) = table
table_of (err e) = []

abbrev after_first : List (IdempotencyRecord ℕ)
after_first = table_of (execute request count store_marked replay_marked 7 [])

runs : Unit {0}
unfolding execute first records_for missing any starts_with same_owner
runs = tt

first_run : execute request count store_marked replay_marked 7 [] ≡ ok (false, 7, 8, after_first)
unfolding runs
first_run = refl

abbrev other_payload : ℕ
other_payload = 42

other_hash : other_payload ≢ 41
other_hash h = omega (arith, h)

-- a record of another request, which came after the first run
abbrev other_record : IdempotencyRecord ℕ
other_record = record {
  owner = shop;
  identity = record { operation = "withdrawal.create"; key = client "k-2" };
  request_hash = 42;
  response = 130;
}

execute-once_example :
    (table : List (IdempotencyRecord ℕ)) × (execute request count store_marked replay_marked 20
        (after_first ++ (other_record ∷ []))
      ≡ ok (true, 7, 20, table))
unfolding runs
execute-once_example =
    execute-once request count store_marked replay_marked 7 8 [] after_first 7 count 20
      (other_record ∷ []) refl
