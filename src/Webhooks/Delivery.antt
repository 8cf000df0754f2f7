-- ===== src/Webhooks/Delivery.antt =====
-- apps/api/src/webhooks/webhooks.service.ts: the rows of the webhooks, the lease of a delivery, and
-- what merchants do to them. A lease token is random; here it is a number.
use Prim.Native.String.{String}
use pay.Shared.{
  ℕ, ◌+◌, Bool, true, false, not, ◌&&◌, ◌||◌, Option, none, some, ◌==◌, leb, if◌then◌else◌, Table,
  find, modify, modify_many, Result, ok, ◌>>=◌, ◌>>◌, require, or_throw, not_found, invalid_state,
}
use pay.Domain.{FinancialContext, same_owner}

pub data DeliveryStatus : Type 0 where
  pending processing delivered dead : DeliveryStatus

pub record WebhookEndpoint : Type 0 where
  pub owner : FinancialContext
  pub url : String
  pub enabled : Bool
  pub encrypted_secret : String

pub record WebhookDelivery : Type 0 where
  pub outbox_event_id : ℕ
  pub endpoint_id : ℕ
  pub attempt : ℕ
  pub status : DeliveryStatus
  pub next_attempt_at : ℕ
  pub lease_token : Option ℕ
  pub lease_expires_at : Option ℕ
  pub response_code : Option ℕ
  pub response_body : Option String
  pub delivered_at : Option ℕ
  pub created_at : ℕ

pub record Hooks : Type 0 where
  pub endpoints : Table WebhookEndpoint
  pub deliveries : Table WebhookDelivery

abbrev pub is_pending : DeliveryStatus → Bool
is_pending pending = true
is_pending _ = false

abbrev pub is_processing : DeliveryStatus → Bool
is_processing processing = true
is_processing _ = false

abbrev pub lapsed : (now : ℕ) → Option ℕ → Bool
lapsed now none = true
lapsed now (some at) = leb at now

abbrev pub is_enabled : Option WebhookEndpoint → Bool
is_enabled none = false
is_enabled (some e) = e.enabled

-- `OR: [{ status: 'pending', … }, { status: 'processing', … }]`
abbrev pub is_due : (now : ℕ) → WebhookDelivery → Bool
is_due now d =
    (is_pending d.status && leb d.next_attempt_at now)
    || (is_processing d.status && lapsed now d.lease_expires_at)

-- the `where` of a claim
unfoldable pub is_claimable : (now : ℕ) → Hooks → WebhookDelivery → Bool
is_claimable now h d = is_enabled (find d.endpoint_id h.endpoints) && is_due now d

abbrev pub set_deliveries : Table WebhookDelivery → Hooks → Hooks
set_deliveries ds h = record h { deliveries = ds }

abbrev pub lease : (now token : ℕ) → WebhookDelivery → WebhookDelivery
lease now token d = record d {
  status = processing;
  lease_token = some token;
  lease_expires_at = some (now + 30000);
}

abbrev pub claim_row :
    (now token id : ℕ) → Option WebhookDelivery → Hooks → Option WebhookDelivery × Hooks
claim_row now token id none h = (none, h)
claim_row now token id (some d) h =
    if is_claimable now h d
    then (some (lease now token d), set_deliveries (modify id (lease now token) h.deliveries) h)
    else (none, h)

-- `claimDelivery`: the claimed row, where the claim went through
unfoldable pub claim_delivery : (now token id : ℕ) → Hooks → Option WebhookDelivery × Hooks
claim_delivery now token id h = claim_row now token id (find id h.deliveries) h

abbrev pub is_token : Option ℕ → ℕ → Bool
is_token none token = false
is_token (some t) token = t == token

-- `status: 'processing', leaseToken`
abbrev pub holds : (token : ℕ) → WebhookDelivery → Bool
holds token d = is_processing d.status && is_token d.lease_token token

abbrev pub without_lease : WebhookDelivery → WebhookDelivery
without_lease d = record d { lease_token = none; lease_expires_at = none }

-- `finishClaim`: only the holder of the lease ends it
unfoldable pub finish_claim :
    (id token : ℕ) → (data' : WebhookDelivery → WebhookDelivery) → Hooks → Hooks
finish_claim id token data' h =
    set_deliveries
      (modify id (λ d. if holds token d then without_lease (data' d) else d) h.deliveries) h

abbrev pub extend : (now : ℕ) → WebhookDelivery → WebhookDelivery
extend now d = record d { lease_expires_at = some (now + 30000) }

-- the renewal before the request is sent
unfoldable pub renew_claim : (now id token : ℕ) → Hooks → Hooks
renew_claim now id token h =
    set_deliveries (modify id (λ d. if holds token d then extend now d else d) h.deliveries) h

abbrev pub is_of : FinancialContext → Option WebhookEndpoint → Bool
is_of auth none = false
is_of auth (some e) = same_owner auth e.owner

abbrev pub give_up : WebhookDelivery → WebhookDelivery
give_up d = record (without_lease d) {
  status = dead;
  response_body = some "Endpoint disabled by merchant";
}

abbrev set_enabled_row : ℕ → Bool → Hooks → Hooks
set_enabled_row id enabled h = record h {
  endpoints = modify id (λ (e : WebhookEndpoint). record e { enabled = enabled }) h.endpoints;
}

abbrev is_unfinished_of : ℕ → WebhookDelivery → Bool
is_unfinished_of endpoint_id d =
    (d.endpoint_id == endpoint_id) && (is_pending d.status || is_processing d.status)

-- `setEnabled`: a disabled endpoint's unfinished deliveries are dead
unfoldable pub set_enabled : FinancialContext → (endpoint_id : ℕ) → Bool → Hooks → Result Hooks
set_enabled auth endpoint_id enabled h = do
  require (is_of auth (find endpoint_id h.endpoints)) not_found
  let updated = set_enabled_row endpoint_id enabled h
  ok (
      if enabled
      then updated
      else set_deliveries (modify_many (is_unfinished_of endpoint_id) give_up h.deliveries) updated)

abbrev pub return_to_pending : (now : ℕ) → WebhookDelivery → WebhookDelivery
return_to_pending now d = record (without_lease d) { status = pending; next_attempt_at = now }

-- what `rotateSecret` executes: a running delivery, signed with the old secret, starts again
unfoldable pub rotate_secret :
    (now : ℕ) → FinancialContext → (endpoint_id : ℕ) → (secret : String) → Hooks → Result Hooks
rotate_secret now auth endpoint_id secret h = do
  require (is_of auth (find endpoint_id h.endpoints)) not_found
  ok (record h {
    endpoints =
        modify endpoint_id (λ (e : WebhookEndpoint). record e { encrypted_secret = secret })
          h.endpoints;
    deliveries =
        modify_many (λ d. (d.endpoint_id == endpoint_id) && is_processing d.status)
          (return_to_pending now) h.deliveries;
  })

abbrev pub fresh : (now : ℕ) → WebhookDelivery → WebhookDelivery
fresh now d = record (return_to_pending now d) {
  delivered_at = none;
  response_code = none;
  response_body = none;
}

-- what `replay` executes
unfoldable pub replay : (now : ℕ) → FinancialContext → (id : ℕ) → Hooks → Result Hooks
replay now auth id h = do
  d ← or_throw (find id h.deliveries) not_found
  require (is_of auth (find d.endpoint_id h.endpoints)) not_found
  require (not (is_processing d.status) || lapsed now d.lease_expires_at) invalid_state
  ok (set_deliveries (modify id (fresh now) h.deliveries) h)
