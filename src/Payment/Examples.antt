-- ===== src/Payment/Examples.antt =====
-- Tests of the payment rules, and the theorems at concrete inputs.
use backend_go.Prelude.{ℕ, true, false, none, some, codes, trim_space, ◌≡◌, ◌↔◌, ◌≤◌, ◌⊎◌, refl}
use backend_go.Float.{fixed_point}
use backend_go.Payment.Status.{overpaid, status_text, intent_status_is_paid}
use backend_go.Payment.Pricing.{
  round8, compute_bounds, resolve_intent_status, band, Describes, above, within,
  resolve_intent_status-Describes, resolve_intent_status-is_paid,
}
use backend_go.Payment.Link.{
  LinkInput, validate_link_input, validate_link_input-none, IsAccepted, redirect_required,
}

-- 100 with a tolerance of 0.25 percent
bounds_of_hundred :
    compute_bounds fixed_point 10_000_000_000 25_000_000 ≡ (9_975_000_000, 10_025_000_000)
unfolding compute_bounds round8
bounds_of_hundred = refl

overpaid_early :
    resolve_intent_status fixed_point 10_000_000_000 20_000_000_000 25_000_000 0 12 ≡ overpaid
unfolding resolve_intent_status compute_bounds round8
overpaid_early = refl

resolve_intent_status-Describes_example :
    (resolve_intent_status fixed_point 10_000_000_000 20_000_000_000 25_000_000 0 12 ≡ overpaid)
    ↔ Describes overpaid true false (band fixed_point 10_000_000_000 20_000_000_000 25_000_000)
resolve_intent_status-Describes_example =
    resolve_intent_status-Describes fixed_point 10_000_000_000 20_000_000_000 25_000_000 0 12
      overpaid

resolve_intent_status-is_paid_example :
    (intent_status_is_paid (
        status_text
          (resolve_intent_status fixed_point 10_000_000_000 9_990_000_000 25_000_000 12 12))
      ≡ true)
    ↔ ((false ≡ false)
        × ((band fixed_point 10_000_000_000 9_990_000_000 25_000_000 ≡ above)
            ⊎ ((band fixed_point 10_000_000_000 9_990_000_000 25_000_000 ≡ within) × (12 ≤ 12))))
resolve_intent_status-is_paid_example =
    resolve_intent_status-is_paid fixed_point 10_000_000_000 9_990_000_000 25_000_000 12 12

abbrev donation : LinkInput ℕ
donation = record {
  title = codes "Donation";
  pricing_mode = codes " Open ";
  amount = none;
  currency = codes "USD";
  allowed_tokens = 2;
  reusable = true;
  max_payments = some 5;
  expires_at = none;
  after_payment_type = codes "redirect";
  redirect_url = codes "https://example.org/";
  min_amount = some 100_000_000;
  max_amount = none;
}

donation_valid : validate_link_input fixed_point (λ url. true) 1000 donation ≡ none
unfolding validate_link_input trim_space
donation_valid = refl

no_redirect :
    validate_link_input fixed_point
      (λ url. true)
      1000
      (record donation { redirect_url = codes "  " })
    ≡ some redirect_required
unfolding validate_link_input trim_space
no_redirect = refl

validate_link_input-none_example :
    (validate_link_input fixed_point (λ url. true) 1000 donation ≡ none)
    ↔ IsAccepted fixed_point (λ url. true) 1000 donation
validate_link_input-none_example = validate_link_input-none fixed_point (λ url. true) 1000 donation
