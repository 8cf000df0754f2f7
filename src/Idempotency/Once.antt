-- ===== src/Idempotency/Once.antt =====
-- apps/api/src/idempotency/idempotency.service.ts: what a second request with the same key gets.
use Prim.Native.String.{String}
use pay.Shared.{
  ℕ, ◌≡◌, ◌≢◌, refl, ap, ◌∙◌, inl, inr, Bool, true, false, not, Option, none, some, List, [], ◌∷◌,
  ◌++◌, ◌==◌, any, arith, if-cases, Result, ok, err, ◌>>=◌, >>=-eq-ok, ok_injective, str_eq,
  str_eq_iff, ==_refl, duplicate_reference_conflict,
}
use pay.Parsers.Phone.{codes, starts_with}
use pay.Ledger.Adjustment.{same_owner_refl}
use pay.Idempotency.{
  Key, client, reference, Identity, same_key, same_identity, IdempotencyRecord, IdempotencyOptions,
  record_identities, is_record_of, first, records_for, missing, answer, execute,
}

module _ {κ} {R : Type κ} (p : IdempotencyRecord R → Bool) where
  first-hit :
      (t u : List (IdempotencyRecord R)) (e : IdempotencyRecord R)
      → first p t ≡ some e
      → first p (t ++ u) ≡ some e
  unfolding first
  first-hit [] u e h = cc
  first-hit (r ∷ t) u e h = elim (if-cases (p r) _ _ _ h) [
    | inl (yes_r, same) ↦ rw yes_r same
    | inr (no_r, rest) ↦ rw no_r (first-hit t u e rest)
  ]

  first-miss : (t u : List (IdempotencyRecord R)) → first p t ≡ none → first p (t ++ u) ≡ first p u
  unfolding first
  first-miss [] u h = refl
  first-miss (r ∷ t) u h = elim (if-cases (p r) _ _ _ h) [
    | inl (yes_r, same) ↦ cc
    | inr (no_r, rest) ↦ rw no_r (first-miss t u rest)
  ]

same_hash : (a b : ℕ) → not (a == b) ≡ false → a ≡ b
same_hash a b h = ground arith

==-false : (a b : ℕ) → b ≢ a → (a == b) ≡ false
==-false a b h = ground arith

str_eq_refl : (a : String) → str_eq a a ≡ true
str_eq_refl a = (str_eq_iff a a).1 refl

same_key_refl : (k : Key) → same_key k k ≡ true
same_key_refl (client a) = str_eq_refl a
same_key_refl (reference a) = str_eq_refl a

same_identity_refl : (i : Identity) → same_identity i i ≡ true
same_identity_refl i = rw (str_eq_refl i.operation, same_key_refl i.key) refl

-- the oldest of the records that a fresh request leaves is the one under the client's key
first-records_for :
    {R : Type 0} (o : IdempotencyOptions) (response : R)
    → (e : IdempotencyRecord R) × (first
          (is_record_of o.auth (record_identities o))
          (records_for o.auth o.request_hash response (record_identities o))
        ≡ some e)
      × (e.request_hash ≡ o.request_hash)
      × (e.response ≡ response)
unfolding first records_for any
first-records_for {R = R} o response =
    let head : IdempotencyRecord R = record {
      owner = o.auth;
      identity = record { operation = o.operation; key = client o.key };
      request_hash = o.request_hash;
      response = response;
    } in
    (head, rw (same_owner_refl o.auth, str_eq_refl o.operation, str_eq_refl o.key) refl, refl, refl)

module _ {S R V : Type 0} (o : IdempotencyOptions) (run : S → Result (R × S)) (store_result : R → V)
    (replay_result : V → S → Result (R × S)) (s s' : S) (t t' : List (IdempotencyRecord V))
    (response : R) where
  answered :
      (found : Option (IdempotencyRecord V))
      → first (is_record_of o.auth (record_identities o)) t ≡ found
      → answer o run store_result replay_result s t found ≡ ok (false, response, s', t')
      → (e : IdempotencyRecord V) × (first (is_record_of o.auth (record_identities o)) t' ≡ some e)
        × (e.request_hash ≡ o.request_hash)
        × (e.response ≡ store_result response)
  answered (some e) at h = elim (if-cases (not (e.request_hash == o.request_hash)) _ _ _ h) [
    | inl (_, thrown) ↦ cc
    | inr (_, done) ↦
        let ((r, s₁), _, result) = >>=-eq-ok (replay_result e.response s) _ done in
        let replayed : true ≡ false =
          ap (λ (x : Bool × R × S × List (IdempotencyRecord V)). x.0) (ok_injective result) in
        cc
  ]
  answered none at h =
      let ((r, s₁), _, done) = >>=-eq-ok (run s) _ h in
      let result = ok_injective done in
      let (e, head, hash, stored) = first-records_for o (store_result r) in
      (
        e,
        rw (← ap (λ (x : Bool × R × S × List (IdempotencyRecord V)). x.3) result)
            (first-miss (is_record_of o.auth (record_identities o)) t _ at ∙ head),
        hash,
        stored
            ∙ ap store_result (ap (λ (x : Bool × R × S × List (IdempotencyRecord V)). x.1) result),
      )

  -- the record that a request which ran has left, with its own hash and its stored response
  recorded :
      execute o run store_result replay_result s t ≡ ok (false, response, s', t')
      → (starts_with (codes "__reference__:") (codes o.key) ≡ false)
        × ((e : IdempotencyRecord V) × (first (is_record_of o.auth (record_identities o)) t'
              ≡ some e)
            × (e.request_hash ≡ o.request_hash)
            × (e.response ≡ store_result response))
  unfolding execute
  recorded h = elim (if-cases (starts_with (codes "__reference__:") (codes o.key)) _ _ _ h) [
    | inl (_, e) ↦ cc
    | inr (allowed, e) ↦
        (allowed, answered (first (is_record_of o.auth (record_identities o)) t) refl e)
  ]

  -- A request that ran with success is not run a second time. Repeated with the same payload, in
  -- any state, whatever it would do then, and whatever records were added after its own, it gets
  -- just what `replayResult` makes of the stored form of the first response, marked as replayed, or
  -- the error that `replayResult` throws.
  pub execute-once :
      (again : S → Result (R × S)) (u : S) (more : List (IdempotencyRecord V))
      → execute o run store_result replay_result s t ≡ ok (false, response, s', t')
      → (table : List (IdempotencyRecord V)) × (execute o again store_result replay_result u
            (t' ++ more)
          ≡ (replay_result (store_result response) u >>= λ (r, u'). ok (true, r, u', table)))
  unfolding execute
  execute-once again u more h =
      let (allowed, (e, row, hash, stored)) = recorded h in
      let kept = first-hit (is_record_of o.auth (record_identities o)) t' more e row in
      (
        (t' ++ more)
            ++ records_for o.auth o.request_hash (store_result response)
                (missing o.auth (t' ++ more) (record_identities o)),
        rw (allowed, kept, hash, ==_refl o.request_hash, stored) refl,
      )

  -- A request that ran with success keeps its key and its reference: the same request with another
  -- payload is refused, and it is not run.
  pub execute-conflict :
      (again : S → Result (R × S)) (u : S) (more : List (IdempotencyRecord V)) (hash : ℕ)
      → execute o run store_result replay_result s t ≡ ok (false, response, s', t')
      → hash ≢ o.request_hash
      → execute (record o { request_hash = hash }) again store_result replay_result u (t' ++ more)
        ≡ err duplicate_reference_conflict
  unfolding execute
  execute-conflict again u more hash h other =
      let (allowed, (e, row, same, _)) = recorded h in
      let kept = first-hit (is_record_of o.auth (record_identities o)) t' more e row in
      rw (allowed, kept, same, ==-false o.request_hash hash other) refl
