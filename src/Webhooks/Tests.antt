-- ===== src/Webhooks/Tests.antt =====
-- Runs of the webhook worker at a concrete delivery, and the theorems about it.
use pay.Shared.{
  zero, suc, false, ℕ, ◌≤◌, ◌≡◌, refl, true, Option, none, some, [], ◌∷◌, find, modify, arith,
}
use pay.Domain.{FinancialContext}
use pay.Samples.{shop}
use pay.Webhooks.Delivery.{
  DeliveryStatus, WebhookEndpoint, WebhookDelivery, Hooks, is_claimable, claim_delivery,
  finish_claim, renew_claim, lease,
}
use pay.Webhooks.Worker.{Attempt, unresolved, failed, answered, deliver, send, retry, retry_delay}
use pay.Webhooks.Lease.{claim_delivery-excludes}
use pay.Webhooks.Retry.{IsFailing, fail_rounds, fail_rounds-end}

webhooks : Unit {0}
unfolding claim_delivery is_claimable find modify deliver send finish_claim renew_claim retry
    retry_delay
webhooks = tt

abbrev endpoint : WebhookEndpoint
endpoint = record {
  owner = shop;
  url = "https://shop.example/hook";
  enabled = true;
  encrypted_secret = "s";
}

abbrev notice : WebhookDelivery
notice = record {
  outbox_event_id = 50;
  endpoint_id = 60;
  attempt = 0;
  status = DeliveryStatus.pending;
  next_attempt_at = 1000;
  lease_token = none;
  lease_expires_at = none;
  response_code = none;
  response_body = none;
  delivered_at = none;
  created_at = 1000;
}

abbrev hooks : Hooks
hooks = record { endpoints = (60, endpoint) ∷ []; deliveries = (70, notice) ∷ [] }

abbrev once : Hooks
once = record hooks { deliveries = (70, lease 1000 1 notice) ∷ [] }

-- the first worker has renewed its lease
abbrev renewed : Hooks
renewed = record hooks { deliveries = (70, lease 1500 1 notice) ∷ [] }

abbrev twice : Hooks
twice = record hooks { deliveries = (70, lease 32000 2 notice) ∷ [] }

-- the lease has not run out yet
early_claim : claim_delivery 30999 2 70 once ≡ (none, once)
unfolding webhooks
early_claim = refl

claim_delivery-excludes_example :
    ((x : WebhookDelivery) × (find 70 once.deliveries ≡ some x)
      × (x.status ≡ DeliveryStatus.processing)
      × (x.lease_token ≡ some 1)
      × (x.lease_expires_at ≡ some 31000))
    × (31500 ≤ 32000)
    × ((at : ℕ) (owner : Option FinancialContext) (attempt : Attempt)
        → deliver at owner
            (record { id = 70; delivery = lease 1000 1 notice; lease_token = 1 })
            attempt
            twice
          ≡ twice)
unfolding webhooks
claim_delivery-excludes_example =
    claim_delivery-excludes 1000 1 32000 2 70 31500 hooks once renewed twice (lease 1000 1 notice)
      (lease 32000 2 notice) (lease 1500 1 notice) (omega arith) refl refl refl refl refl

-- the first retry of a refused address comes two seconds later
first_retry :
    (deliver 1000
      (some shop)
      (record { id = 70; delivery = lease 1000 1 notice; lease_token = 1 })
      (unresolved "private address")
      once).deliveries
    ≡ (
      70,
      record notice { attempt = 1; response_body = some "private address"; next_attempt_at = 3000 },
    )
      ∷ []
unfolding webhooks
first_retry = refl

notice_is_there : find 70 hooks.deliveries ≡ some notice
unfolding webhooks
notice_is_there = refl

endpoint_is_there : find 60 hooks.endpoints ≡ some endpoint
unfolding webhooks
endpoint_is_there = refl

-- the server refuses by its answer, then it is not reached, then its address is refused
abbrev refusals : ℕ → Attempt
refusals zero = answered 1500 503 false "busy"
refusals (suc zero) = failed 4000 "timeout"
refusals (suc (suc n)) = unresolved "private address"

refusals-IsFailing : (n : ℕ) → IsFailing (refusals n)
refusals-IsFailing zero = refl
refusals-IsFailing (suc zero) = tt
refusals-IsFailing (suc (suc n)) = tt

fail_rounds-end_example :
    (d : WebhookDelivery) × (find 70 (fail_rounds 5 shop refusals 70 86401 hooks).deliveries
      ≡ some d)
    × (d.status ≡ DeliveryStatus.dead)
fail_rounds-end_example =
    fail_rounds-end 5 shop refusals 70 hooks notice notice_is_there refl (rw endpoint_is_there refl)
      (omega arith) refusals-IsFailing 86401 (omega arith)
