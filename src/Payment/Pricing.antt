-- ===== src/Payment/Pricing.antt =====
-- internal/domain/payment/pricing.go
use backend_go.Prelude.{
  ℕ, ◌≤◌, Bool, true, false, not, ◌≡◌, ◌↔◌, ◌⊎◌, arith, ltb, leb, if◌then◌else◌,
}
use backend_go.Float.{Float64}
use backend_go.Payment.Status.{
  IntentStatus, awaiting_funds, partial, overpaid, confirmed, created, status_text,
  intent_status_is_paid, intent_status_is_paid-text,
}

module _ {F : Type 0} (fl : Float64 F) where
  open fl use {zero, one, hundred, e8, add, sub, mul, div, lt, le, round}

  unfoldable pub round8 : F → F
  round8 v = div (round (mul v e8)) e8

  unfoldable pub compute_bounds : F → F → F × F
  compute_bounds expected tolerance =
      let expected' = if lt expected zero then zero else expected in
      let tolerance' = if lt tolerance zero then zero else tolerance in
      let multiplier = div tolerance' hundred in
      let lo = mul expected' (sub one multiplier) in
      let hi = mul expected' (add one multiplier) in
      let lo' = if lt lo zero then zero else lo in (round8 lo', round8 hi)

  unfoldable pub resolve_intent_status : F → F → F → ℕ → ℕ → IntentStatus
  resolve_intent_status expected received tolerance confirmations required =
      if le received zero
      then awaiting_funds
      else let (lo, hi) = compute_bounds expected tolerance in
        if ltb confirmations required
        then (if lt received lo
            then partial
            else if lt hi received
            then overpaid
            else awaiting_funds)
        else if lt received lo
        then partial
        else if lt hi received
        then overpaid
        else confirmed

-- where a received amount lies in the range of `compute_bounds`
pub data Band : Type 0 where
  below within above : Band

-- what a status says of the amount, of the confirmations and of the band
abbrev pub Describes : IntentStatus → Bool → Bool → Band → Type 0
Describes awaiting_funds funded final band = (funded ≡ false) ⊎ ((final ≡ false) × (band ≡ within))
Describes partial funded final band = (funded ≡ true) × (band ≡ below)
Describes overpaid funded final band = (funded ≡ true) × (band ≡ above)
Describes confirmed funded final band = (funded ≡ true) × (final ≡ true) × (band ≡ within)
Describes _ funded final band = ⊥

module _ {F : Type 0} (fl : Float64 F) (expected received tolerance : F) where
  open fl use {zero, lt, le}

  -- an amount below both bounds counts as below
  unfoldable pub band : Band
  band =
      let (lo, hi) = compute_bounds fl expected tolerance in
      if lt received lo then below else if lt hi received then above else within

  -- For every input, the status that is returned is one of the four that describe the amount:
  -- awaiting funds if nothing was received, or if the amount is in the range and the
  -- confirmations are missing; partial below the range and overpaid above it, whatever the
  -- confirmations; confirmed in the range with the confirmations reached. No other status fits.
  pub resolve_intent_status-Describes :
      (confirmations required : ℕ) (status : IntentStatus)
      → (resolve_intent_status fl expected received tolerance confirmations required ≡ status)
        ↔ Describes status (not (le received zero)) (leb required confirmations) band
  unfolding resolve_intent_status band
  resolve_intent_status-Describes confirmations required created =
      (λ h. ground arith, λ h. ground arith)
  resolve_intent_status-Describes confirmations required status =
      (λ h. ground arith, λ h. ground arith)

  -- The status counts as paid exactly when something was received and either the amount is above
  -- the range, with any number of confirmations, or it is in the range and confirmed.
  pub resolve_intent_status-is_paid :
      (confirmations required : ℕ)
      → (intent_status_is_paid (
            status_text
              (resolve_intent_status fl expected received tolerance confirmations required))
          ≡ true)
        ↔ ((le received zero ≡ false)
            × ((band ≡ above) ⊎ ((band ≡ within) × (required ≤ confirmations))))
  unfolding resolve_intent_status band
  resolve_intent_status-is_paid confirmations required =
      rw intent_status_is_paid-text (λ h. ground arith, λ h. ground arith)
