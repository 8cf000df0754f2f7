-- ===== src/Webhooks/Retry.antt =====
-- apps/api/src/webhooks/webhooks.service.ts: a delivery whose every attempt fails. Each round claims
-- the delivery when it is due, and sends it without success.
use Prim.Native.Nat.{◌^◌}
use Prim.Native.Nat.pow
use Prim.Native.String.{String}
use pay.Shared.{
  ℕ, zero, suc, ◌+◌, ◌*◌, ◌≤◌, min, ◌≡◌, refl, ◌∙◌, ◌⊎◌, true, false, inl, inr, Bool-cases, Option,
  none, some, if◌then◌else◌, Table, leb, le→leb, ==_refl, &&-false, find, modify, find-modify-some,
  arith,
}
use pay.Domain.{FinancialContext}
use pay.Webhooks.Delivery.{
  pending, dead, WebhookDelivery, Hooks, is_claimable, is_enabled, claim_delivery, lease,
  finish_claim, renew_claim, holds, extend, set_deliveries, without_lease,
}
use pay.Webhooks.Worker.{Attempt, unresolved, failed, answered, send, deliver, retry, retry_delay}

pow_pos : (n : ℕ) → 1 ≤ 2 ^ n
pow_pos zero = rw (pow.zero 2) (omega arith)
pow_pos (suc n) = rw (pow.suc 2 n) (omega (arith, pow_pos n))

pub delay_at_least : (attempt : ℕ) → 1000 ≤ retry_delay attempt
unfolding retry_delay
delay_at_least attempt = ground (arith, pow_pos (min attempt 10))

-- The attempt is no success: the address is refused, the request fails, or the server's answer is
-- not a good one.
abbrev pub IsFailing : Attempt → Type 0
IsFailing (unresolved message) = Unit {0}
IsFailing (failed renewed_at message) = Unit {0}
IsFailing (answered renewed_at code good body) = good ≡ false

module _ (token : ℕ) (owner : FinancialContext) (attempts : ℕ → Attempt) (id : ℕ) where
  abbrev attempt_at : (now : ℕ) → Attempt → Option WebhookDelivery → Hooks → Hooks
  attempt_at now a none h = h
  attempt_at now a (some d) h =
      deliver now (some owner) (record { id = id; delivery = d; lease_token = token }) a h

  abbrev round : Attempt → Option WebhookDelivery → Hooks → Hooks
  round a none h = h
  round a (some d) h =
      let claim = claim_delivery d.next_attempt_at token id h in
      attempt_at d.next_attempt_at a claim.0 claim.1

  -- the rounds one after the other, each when the delivery is next due
  unfoldable pub fail_rounds : ℕ → Hooks → Hooks
  unfolding find
  fail_rounds zero h = h
  fail_rounds (suc n) h =
      let before = fail_rounds n h in round (attempts n) (find id before.deliveries) before

  -- the claimed row `x`, with its lease renewed or not, after the attempt
  abbrev after_failure : WebhookDelivery → Option ℕ → String → WebhookDelivery → WebhookDelivery
  after_failure d code body x =
      without_lease (retry d.next_attempt_at (lease d.next_attempt_at token d) code body x)

  -- a pending delivery of an enabled endpoint is claimed when it is due
  claim-due :
      (h : Hooks) (d : WebhookDelivery)
      → find id h.deliveries ≡ some d
      → d.status ≡ pending
      → is_enabled (find d.endpoint_id h.endpoints) ≡ true
      → claim_delivery d.next_attempt_at token id h ≡ (
        some (lease d.next_attempt_at token d),
        set_deliveries (modify id (lease d.next_attempt_at token) h.deliveries) h,
      )
  unfolding claim_delivery is_claimable
  claim-due h d row waiting serving =
      rw (row, serving, waiting, le→leb d.next_attempt_at d.next_attempt_at (omega arith)) refl

  -- the row that a failed round leaves
  abbrev Failed : WebhookDelivery → Hooks → Hooks → Type 0
  Failed d h h' =
      (code : Option ℕ) × (body : String) × (x : WebhookDelivery) × (find id h'.deliveries
        ≡ some (after_failure d code body x))
      × (x.created_at ≡ d.created_at)
      × (x.endpoint_id ≡ d.endpoint_id)
      × (h'.endpoints ≡ h.endpoints)

  -- the row after the claim, the renewal and the end of the lease
  find-renewed :
      (now at : ℕ) (data' : WebhookDelivery → WebhookDelivery) (d : WebhookDelivery)
      (rows : Table WebhookDelivery)
      → find id rows ≡ some d
      → find id (
          modify id
            (λ x. if holds token x then without_lease (data' x) else x)
            (modify id
              (λ x. if holds token x then extend at x else x)
              (modify id (lease now token) rows)))
        ≡ some (without_lease (data' (extend at (lease now token d))))
  find-renewed now at data' d rows row =
      find-modify-some id _
        (modify id (λ x. if holds token x then extend at x else x)
          (modify id (lease now token) rows))
        (find-modify-some id _ (modify id (lease now token) rows)
          (find-modify-some id (lease now token) rows row))
      ∙ rw (==_refl token, ==_refl token) refl

  round-fails :
      (a : Attempt) (h : Hooks) (d : WebhookDelivery)
      → IsFailing a
      → find id h.deliveries ≡ some d
      → d.status ≡ pending
      → is_enabled (find d.endpoint_id h.endpoints) ≡ true
      → Failed d h (round a (some d) h)
  unfolding deliver send finish_claim renew_claim
  round-fails (unresolved message) h d fails row waiting serving =
      rw (claim-due h d row waiting serving, serving)
        (
          none,
          message,
          lease d.next_attempt_at token d,
          find-modify-some id _ (modify id (lease d.next_attempt_at token) h.deliveries)
                (find-modify-some id (lease d.next_attempt_at token) h.deliveries row)
              ∙ rw (==_refl token) refl,
          refl,
          refl,
          refl,
        )
  round-fails (failed at message) h d fails row waiting serving =
      rw
        (
          claim-due h d row waiting serving,
          serving,
          find-modify-some id (lease d.next_attempt_at token) h.deliveries row,
          ==_refl token,
        )
        (
          none,
          message,
          extend at (lease d.next_attempt_at token d),
          find-renewed d.next_attempt_at at
              (retry d.next_attempt_at (lease d.next_attempt_at token d) none message) d
              h.deliveries row,
          refl,
          refl,
          refl,
        )
  round-fails (answered at code good body) h d fails row waiting serving =
      rw
        (
          claim-due h d row waiting serving,
          serving,
          find-modify-some id (lease d.next_attempt_at token) h.deliveries row,
          ==_refl token,
          fails,
        )
        (
          some code,
          body,
          extend at (lease d.next_attempt_at token d),
          find-renewed d.next_attempt_at at
              (retry d.next_attempt_at (lease d.next_attempt_at token d) (some code) body) d
              h.deliveries row,
          refl,
          refl,
          refl,
        )

  -- a dead delivery is not claimed
  round-rests :
      (a : Attempt) (h : Hooks) (d : WebhookDelivery)
      → find id h.deliveries ≡ some d
      → d.status ≡ dead
      → round a (some d) h ≡ h
  unfolding claim_delivery is_claimable
  round-rests a h d row ended =
      rw (row, ended, &&-false (is_enabled (find d.endpoint_id h.endpoints))) refl

  -- what n rounds leave: a dead delivery, or one that is due a second later for each of them
  abbrev Stands : ℕ → (created endpoint : ℕ) → Hooks → Hooks → Type 0
  Stands n created endpoint h₀ h =
      (d : WebhookDelivery) × (find id h.deliveries ≡ some d)
      × ((d.status ≡ dead)
          ⊎ ((d.status ≡ pending)
              × (d.created_at ≡ created)
              × (d.endpoint_id ≡ endpoint)
              × (h.endpoints ≡ h₀.endpoints)
              × (created + 1000 * n ≤ d.next_attempt_at)))

  failure-Stands :
      (n created endpoint : ℕ) (d x : WebhookDelivery) (code : Option ℕ) (body : String)
      → d.created_at ≡ created
      → x.created_at ≡ created
      → x.endpoint_id ≡ endpoint
      → created + 1000 * n ≤ d.next_attempt_at
      → let d' = after_failure d code body x in
        ((leb (created + 86400000) d.next_attempt_at ≡ true) × (d'.status ≡ dead))
        ⊎ ((leb (created + 86400000) d.next_attempt_at ≡ false)
            × (d'.status ≡ pending)
            × (d'.created_at ≡ created)
            × (d'.endpoint_id ≡ endpoint)
            × (created + 1000 * suc n ≤ d'.next_attempt_at))
  unfolding retry
  failure-Stands n created endpoint d x code body born made on late =
      elim (Bool-cases (leb (created + 86400000) d.next_attempt_at)) [
        | inl old ↦ inl (old, rw (born, old) refl)
        | inr young ↦
            inr (
              young,
              rw (born, young) refl,
              made,
              on,
              omega (arith, delay_at_least (d.attempt + 1)),
            )
      ]

  module _ (h₀ : Hooks) (d₀ : WebhookDelivery) (row : find id h₀.deliveries ≡ some d₀)
      (waiting : d₀.status ≡ pending)
      (serving : is_enabled (find d₀.endpoint_id h₀.endpoints) ≡ true)
      (made : d₀.created_at ≤ d₀.next_attempt_at) (fails : (n : ℕ) → IsFailing (attempts n)) where
    rounds-Stand : (n : ℕ) → Stands n d₀.created_at d₀.endpoint_id h₀ (fail_rounds n h₀)
    unfolding fail_rounds
    rounds-Stand zero = (d₀, row, inr (waiting, refl, refl, refl, omega arith))
    rounds-Stand (suc n) =
        let (d, here, state) = rounds-Stand n in
        let before = fail_rounds n h₀ in
        elim state [
          | inl ended ↦ rw (here, round-rests (attempts n) before d here ended) (d, here, inl ended)
          | inr (pending_still, created, endpoint, endpoints, late) ↦
              let (code, body, x, row', created', endpoint', endpoints') =
                round-fails (attempts n) before d (fails n) here pending_still
                  (rw (endpoint, endpoints) serving) in
              rw here (
                after_failure d code body x,
                row',
                elim (failure-Stands n d₀.created_at d₀.endpoint_id d x code body created
                    (created' ∙ created) (endpoint' ∙ endpoint) late) [
                      | inl (_, ended) ↦ inl ended
                      | inr (_, p, c, e, l) ↦ inr (p, c, e, endpoints' ∙ endpoints, l)
                    ],
              )
        ]

    -- A pending delivery of an enabled endpoint whose every attempt fails is not retried for ever:
    -- tried each time at the moment when it is next due, it is dead after 86401 attempts at the
    -- most. Each attempt may fail in its own way: by a refused address, by a failed request, or by an
    -- answer of the server, of any code and body, that is not a good one.
    pub fail_rounds-end :
        (n : ℕ)
        → 86401 ≤ n
        → (d : WebhookDelivery) × (find id (fail_rounds n h₀).deliveries ≡ some d)
          × (d.status ≡ dead)
    unfolding fail_rounds
    fail_rounds-end zero enough = let never : ⊥ = omega (arith, enough) in elim never [ ]
    fail_rounds-end (suc n) enough =
        let (d, here, state) = rounds-Stand n in
        let before = fail_rounds n h₀ in
        elim state [
          | inl ended ↦ rw (here, round-rests (attempts n) before d here ended) (d, here, ended)
          | inr (pending_still, created, endpoint, endpoints, late) ↦
              let (code, body, x, row', created', endpoint', _) =
                round-fails (attempts n) before d (fails n) here pending_still
                  (rw (endpoint, endpoints) serving) in
              rw here (
                after_failure d code body x,
                row',
                elim (failure-Stands n d₀.created_at d₀.endpoint_id d x code body created
                    (created' ∙ created) (endpoint' ∙ endpoint) late) [
                      | inl (_, ended) ↦ ended
                      | inr (young, _, _, _, _) ↦
                          let old =
                            le→leb (d₀.created_at + 86400000) d.next_attempt_at
                              (omega (arith, late, enough)) in
                          cc
                    ],
              )
        ]
