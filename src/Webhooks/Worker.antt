-- ===== src/Webhooks/Worker.antt =====
-- apps/api/src/webhooks/webhooks.service.ts: `deliver`, `deliverPending` and `expandOutbox`. The
-- answer of the merchant's server, and what the URL policy makes of its address, are an argument.
use Prim.Native.String.{String}
use pay.Shared.{
  ℕ, ◌+◌, ◌-◌, ◌*◌, ◌^◌, min, Bool, false, ◌&&◌, Option, none, some, List, [], ◌∷◌, ◌==◌, ltb, leb,
  if◌then◌else◌, is_some, Table, find, create,
}
use pay.Shared.Sorting.{filter, take, sort}
use pay.Domain.{FinancialContext, same_owner}
use pay.Withdrawals.{find_by}
use pay.Webhooks.Delivery.{
  pending, delivered, dead, WebhookEndpoint, WebhookDelivery, Hooks, is_enabled, is_claimable,
  claim_delivery, finish_claim, renew_claim, holds,
}

-- one attempt: the address is refused, the request fails after the lease is renewed, or the server
-- answers
pub data Attempt : Type 0 where
  unresolved : (message : String) → Attempt
  failed : (renewed_at : ℕ) → (message : String) → Attempt
  answered : (renewed_at code : ℕ) → (good : Bool) → (body : String) → Attempt

-- `Math.min(60 * 60_000, 2 ** Math.min(attempt, 10) * 1000)`
unfoldable pub retry_delay : (attempt : ℕ) → ℕ
retry_delay attempt = min 3600000 (2 ^ min attempt 10 * 1000)

-- the end of an attempt without success: dead once it is a day old, else due again
unfoldable pub retry :
    (now : ℕ)
    → (claimed : WebhookDelivery) → Option ℕ
    → (body : String) → WebhookDelivery
    → WebhookDelivery
unfolding retry_delay
retry now claimed code body d = record d {
  status = if leb (claimed.created_at + 86400000) now then dead else pending;
  attempt = claimed.attempt + 1;
  response_code = elim code [ none ↦ d.response_code | some c ↦ some c ];
  response_body = some body;
  next_attempt_at = now + retry_delay (claimed.attempt + 1);
}

abbrev pub deliver_row : (now code : ℕ) → (body : String) → WebhookDelivery → WebhookDelivery
deliver_row now code body d = record d {
  status = delivered;
  attempt = d.attempt + 1;
  response_code = some code;
  response_body = some body;
  delivered_at = some now;
}

abbrev bury : (attempts : ℕ) → String → WebhookDelivery → WebhookDelivery
bury attempts body d = record d {
  status = dead;
  attempt = d.attempt + attempts;
  response_body = some body;
}

abbrev still_holds : (token : ℕ) → Option WebhookDelivery → Bool
still_holds token none = false
still_holds token (some d) = holds token d

-- the claim's own row and token
pub record ClaimedWebhookDelivery : Type 0 where
  pub id : ℕ
  pub delivery : WebhookDelivery
  pub lease_token : ℕ

unfoldable pub send : (now : ℕ) → ClaimedWebhookDelivery → Attempt → Hooks → Hooks
unfolding find
send now c (unresolved message) h =
    finish_claim c.id c.lease_token (retry now c.delivery none message) h
send now c (failed renewed_at message) h =
    if still_holds c.lease_token (find c.id h.deliveries)
    then finish_claim c.id c.lease_token (retry now c.delivery none message)
        (renew_claim renewed_at c.id c.lease_token h)
    else h
send now c (answered renewed_at code good body) h =
    if still_holds c.lease_token (find c.id h.deliveries)
    then finish_claim c.id c.lease_token
        (if good then deliver_row now code body else retry now c.delivery (some code) body)
        (renew_claim renewed_at c.id c.lease_token h)
    else h

-- `deliver`; `owner` is `aggregateOwner` of the delivery's event
unfoldable pub deliver :
    (now : ℕ) → (owner : Option FinancialContext) → ClaimedWebhookDelivery → Attempt → Hooks → Hooks
unfolding find
deliver now none c attempt h =
    finish_claim c.id c.lease_token (bury 1 "Webhook aggregate no longer exists") h
deliver now (some owner) c attempt h =
    if is_enabled (find c.delivery.endpoint_id h.endpoints)
    then send now c attempt h
    else finish_claim c.id c.lease_token (bury 0 "Endpoint disabled before delivery") h

abbrev is_sooner : ℕ × WebhookDelivery → ℕ × WebhookDelivery → Bool
is_sooner y x = ltb y.1.next_attempt_at x.1.next_attempt_at

-- the candidates of `deliverPending`
unfoldable pub due_deliveries : (now : ℕ) → Hooks → Table WebhookDelivery
due_deliveries now h = take 100 (sort is_sooner (filter (λ x. is_claimable now h x.1) h.deliveries))

abbrev claimed_as :
    (id token : ℕ)
    → Option WebhookDelivery
    → List ClaimedWebhookDelivery
    → List ClaimedWebhookDelivery
claimed_as id token none claims = claims
claimed_as id token (some d) claims = record { id = id; delivery = d; lease_token = token } ∷ claims

-- the loop of `deliverPending`, which stops at `room` claims; the tokens are drawn from `token` on
unfoldable pub claim_due :
    (now room token : ℕ) → Table WebhookDelivery → Hooks → List ClaimedWebhookDelivery × Hooks
claim_due now room token [] h = ([], h)
claim_due now room token ((id, _) ∷ rest) h =
    let claim = claim_delivery now token id h in
    let next =
      claim_due now (if is_some claim.0 then room - 1 else room) (token + 1) rest claim.1 in
    if room == 0 then ([], h) else (claimed_as id token claim.0 next.0, next.1)

-- `deliverPending`, up to the delivery of its claims
unfoldable pub claim_pending : (now token : ℕ) → Hooks → List ClaimedWebhookDelivery × Hooks
claim_pending now token h = claim_due now 50 token (due_deliveries now h) h

-- the row that `expandOutbox` makes for an endpoint, unless it is there
abbrev new_delivery : (now event_id endpoint_id : ℕ) → WebhookDelivery
new_delivery now event_id endpoint_id = record {
  outbox_event_id = event_id;
  endpoint_id = endpoint_id;
  attempt = 0;
  status = pending;
  next_attempt_at = now;
  lease_token = none;
  lease_expires_at = none;
  response_code = none;
  response_body = none;
  delivered_at = none;
  created_at = now;
}

abbrev pub is_delivery_of : (event_id endpoint_id : ℕ) → WebhookDelivery → Bool
is_delivery_of event_id endpoint_id d =
    (event_id == d.outbox_event_id) && (endpoint_id == d.endpoint_id)

abbrev serves : FinancialContext → WebhookEndpoint → Bool
serves owner e = same_owner owner e.owner && e.enabled

-- the endpoints of the owner, one after the other; ids are drawn from `next_id` on
unfoldable pub expand_event :
    (now next_id event_id : ℕ)
    → FinancialContext
    → Table WebhookEndpoint
    → Table WebhookDelivery
    → Table WebhookDelivery
unfolding find_by create
expand_event now next_id event_id owner [] ds = ds
expand_event now next_id event_id owner ((endpoint_id, e) ∷ rest) ds =
    expand_event now (next_id + 1) event_id owner rest (
      if serves owner e
      then (if is_some (find_by (is_delivery_of event_id endpoint_id) ds)
          then ds
          else create next_id (new_delivery now event_id endpoint_id) ds)
      else ds)
