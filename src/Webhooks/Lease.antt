-- ===== src/Webhooks/Lease.antt =====
-- apps/api/src/webhooks/webhooks.service.ts: the lease keeps a delivery to one worker at a time.
use pay.Shared.{
  ℕ, ◌+◌, ◌≤◌, ◌≡◌, ◌≢◌, refl, sym, ap, ◌∙◌, true, false, inl, inr, Bool-cases, Option, none, some,
  some_injective, [], ◌∷◌, ◌==◌, leb→le, if◌then◌else◌, if-cases, Table, find, modify,
  find-modify-some, &&-both, &&-false, arith,
}
use pay.Domain.{FinancialContext}
use pay.Webhooks.Delivery.{
  processing, WebhookDelivery, Hooks, is_claimable, is_due, is_enabled, is_processing,
  claim_delivery, claim_row, lease, finish_claim, holds, set_deliveries, without_lease,
}
use pay.Webhooks.Worker.{
  Attempt, unresolved, failed, answered, ClaimedWebhookDelivery, send, deliver,
}

-- an update that leaves the row it finds leaves the table
pub modify-noop {ℓ} :
    {V : Type ℓ} (k : ℕ) (f : V → V) (t : Table V) {v : V}
    → find k t ≡ some v
    → f v ≡ v
    → modify k f t ≡ t
unfolding find modify
modify-noop k f [] h same = refl
modify-noop k f ((j, w) ∷ t) {v} h same = elim (Bool-cases (k == j)) [
  | inl e ↦
      let here : w ≡ v = some_injective (rw e at h) in
      rw e (ap (λ x. (j, x) ∷ t) (rw (here, same) refl))
  | inr e ↦ rw e (ap (λ x. (j, w) ∷ x) (modify-noop k f t (rw e at h) same))
]

apart : (a b : ℕ) → a ≢ b → (a == b) ≡ false
apart a b differ = ground arith

other-holds :
    (token other : ℕ) (d : WebhookDelivery)
    → d.lease_token ≡ some other
    → token ≢ other
    → holds token d ≡ false
other-holds token other d leased differ =
    rw (leased, apart other token (λ e. differ (sym e))) (&&-false (is_processing d.status))

module _ (now : ℕ) (c : ClaimedWebhookDelivery) (h : Hooks) (d : WebhookDelivery) (other : ℕ)
    (row : find c.id h.deliveries ≡ some d) (leased : d.lease_token ≡ some other)
    (differ : c.lease_token ≢ other) where
  finish-ignored :
      (data' : WebhookDelivery → WebhookDelivery) → finish_claim c.id c.lease_token data' h ≡ h
  unfolding finish_claim
  finish-ignored data' =
      ap (λ ds. set_deliveries ds h)
        (modify-noop c.id (λ x. if holds c.lease_token x then without_lease (data' x) else x)
          h.deliveries row (rw (other-holds c.lease_token other d leased differ) refl))

  send-ignored : (attempt : Attempt) → send now c attempt h ≡ h
  unfolding send
  send-ignored (unresolved message) = finish-ignored _
  send-ignored (failed at message) = rw (row, other-holds c.lease_token other d leased differ) refl
  send-ignored (answered at code good body) =
      rw (row, other-holds c.lease_token other d leased differ) refl

  pub deliver-ignored :
      (owner : Option FinancialContext) (attempt : Attempt) → deliver now owner c attempt h ≡ h
  unfolding deliver
  deliver-ignored none attempt = finish-ignored _
  deliver-ignored (some o) attempt =
      elim (Bool-cases (is_enabled (find c.delivery.endpoint_id h.endpoints))) [
        | inl e ↦ rw e (send-ignored attempt)
        | inr e ↦ rw e (finish-ignored _)
      ]

row-leases :
    (now token id : ℕ) (o : Option WebhookDelivery) (h h' : Hooks) (d : WebhookDelivery)
    → find id h.deliveries ≡ o
    → claim_row now token id o h ≡ (some d, h')
    → (x : WebhookDelivery) × (find id h.deliveries ≡ some x)
      × (is_due now x ≡ true)
      × (d ≡ lease now token x)
      × (find id h'.deliveries ≡ some (lease now token x))
unfolding is_claimable
row-leases now token id none h h' d row went = cc
row-leases now token id (some x) h h' d row went =
    let leased = set_deliveries (modify id (lease now token) h.deliveries) h in
    elim (if-cases (is_claimable now h x) (some (lease now token x), leased) (none, h) (some d, h')
      went) [
        | inl (claimable, same) ↦ (
          x,
          row,
          (&&-both (is_enabled (find x.endpoint_id h.endpoints)) _ claimable).1,
          some_injective (sym (ap (λ (p : Option WebhookDelivery × Hooks). p.0) same)),
          ap (λ (p : Option WebhookDelivery × Hooks). find id p.1.deliveries) (sym same)
              ∙ find-modify-some id (lease now token) h.deliveries row,
        )
        | inr (_, same) ↦ let never = ap (λ (p : Option WebhookDelivery × Hooks). p.0) same in cc
      ]

-- a claim that goes through found its row due, and leaves it leased
claim_delivery-leases :
    (now token id : ℕ) (h h' : Hooks) (d : WebhookDelivery)
    → claim_delivery now token id h ≡ (some d, h')
    → (x : WebhookDelivery) × (find id h.deliveries ≡ some x)
      × (is_due now x ≡ true)
      × (d ≡ lease now token x)
      × (find id h'.deliveries ≡ some (lease now token x))
unfolding claim_delivery
claim_delivery-leases now token id h h' d went =
    row-leases now token id (find id h.deliveries) h h' d refl went

due-lapsed :
    (now ends : ℕ) (x : WebhookDelivery)
    → x.status ≡ processing
    → x.lease_expires_at ≡ some ends
    → is_due now x ≡ true
    → ends ≤ now
due-lapsed now ends x held until due = leb→le _ _ (rw (held, until) at due)

-- A worker that claims a delivery holds it under a lease of thirty seconds. While the row stands as
-- `processing` under a lease with some end, renewed or not, another worker's claim does not go
-- through before that end. Once another has claimed it, whatever the first worker's attempt comes
-- to leaves that claim's table as it is.
pub claim_delivery-excludes :
    (now token now' token' id ends : ℕ) (h h₁ held h₂ : Hooks) (d d' y : WebhookDelivery)
    → token ≢ token'
    → claim_delivery now token id h ≡ (some d, h₁)
    → find id held.deliveries ≡ some y
    → y.status ≡ processing
    → y.lease_expires_at ≡ some ends
    → claim_delivery now' token' id held ≡ (some d', h₂)
    → ((x : WebhookDelivery) × (find id h₁.deliveries ≡ some x)
        × (x.status ≡ processing)
        × (x.lease_token ≡ some token)
        × (x.lease_expires_at ≡ some (now + 30000)))
      × (ends ≤ now')
      × ((at : ℕ) (owner : Option FinancialContext) (attempt : Attempt)
          → deliver at owner (record { id = id; delivery = d; lease_token = token }) attempt h₂
            ≡ h₂)
claim_delivery-excludes now token now' token' id ends h h₁ held h₂ d d' y differ first stands busy
      until second =
    let (x, _, _, _, leased) = claim_delivery-leases now token id h h₁ d first in
    let (z, row, due, _, held') = claim_delivery-leases now' token' id held h₂ d' second in
    let same : z ≡ y = some_injective (sym row ∙ stands) in
    (
      (lease now token x, leased, refl, refl, refl),
      due-lapsed now' ends y busy until (rw same at due),
      λ at owner attempt.
          deliver-ignored at (record { id = id; delivery = d; lease_token = token }) h₂ _ token'
            held' refl differ owner attempt,
    )
