-- ===== src/Payment/Link.antt =====
-- internal/domain/payment/link.go. `now` is time.Now(), and `parse_request_uri` is
-- url.ParseRequestURI, of which the source uses only whether it fails.
use backend_go.Prelude.{
  ℕ, ◌<◌, Bool, true, false, not, ◌&&◌, Option, none, some, Text, codes, text_eq, text_eq_exclusive,
  trim_space, to_lower, ◌≡◌, refl, ◌↔◌, ◌⊎◌, [], arith, ltb, ◌==◌, if◌then◌else◌,
}
use backend_go.Float.{Float64}

pub data LinkError : Type 0 where
  title_required bad_pricing_mode currency_required token_required amount_required negative_min
        max_not_positive min_above_max max_payments_not_positive expires_in_past bad_after_payment
        redirect_required bad_redirect :
      LinkError

-- Go's `int` fields `AllowedTokens` and `MaxPayments` are compared with 0 only: a value that is
-- not positive is 0 here.
pub record LinkInput (F : Type 0) : Type 0 where
  pub title : Text
  pub pricing_mode : Text
  pub amount : Option F
  pub currency : Text
  pub allowed_tokens : ℕ
  pub reusable : Bool
  pub max_payments : Option ℕ
  pub expires_at : Option ℕ
  pub after_payment_type : Text
  pub redirect_url : Text
  pub min_amount : Option F
  pub max_amount : Option F

abbrev pub is_blank : Text → Bool
is_blank s = text_eq (trim_space s) []

abbrev pub holds : {A : Type 0} → (A → Bool) → Option A → Bool
holds p none = false
holds p (some a) = p a

module _ {F : Type 0} (fl : Float64 F) (parse_request_uri : Text → Bool) (now : ℕ) where
  open fl use {zero, lt, le}

  unfoldable pub min_above : LinkInput F → Bool
  min_above input = holds (λ lo. holds (λ hi. lt hi lo) input.max_amount) input.min_amount

  -- the checks of the amounts that depend on the pricing mode
  unfoldable pub check_amounts : LinkInput F → Text → Option LinkError
  unfolding min_above
  check_amounts input mode =
      if text_eq mode (codes "fixed") && not (holds (λ a. not (le a zero)) input.amount)
      then some amount_required
      else if text_eq mode (codes "open") && holds (λ a. lt a zero) input.min_amount
      then some negative_min
      else if text_eq mode (codes "open") && holds (λ a. le a zero) input.max_amount
      then some max_not_positive
      else if text_eq mode (codes "open") && min_above input
      then some min_above_max
      else none

  unfoldable pub check_after_payment : LinkInput F → Text → Option LinkError
  check_after_payment input after =
      if not (text_eq after [])
        && (not (text_eq after (codes "confirmation_page"))
            && not (text_eq after (codes "redirect")))
      then some bad_after_payment
      else if text_eq after (codes "redirect") && is_blank input.redirect_url
      then some redirect_required
      else if text_eq after (codes "redirect") && not (parse_request_uri input.redirect_url)
      then some bad_redirect
      else none

  unfoldable pub validate_link_input : LinkInput F → Option LinkError
  unfolding check_amounts check_after_payment
  validate_link_input input =
      let mode = to_lower (trim_space input.pricing_mode) in
      let after = to_lower (trim_space input.after_payment_type) in
      if is_blank input.title
      then some title_required
      else if not (text_eq mode (codes "fixed")) && not (text_eq mode (codes "open"))
      then some bad_pricing_mode
      else if is_blank input.currency
      then some currency_required
      else if input.allowed_tokens == 0
      then some token_required
      else elim (check_amounts input mode) [
        | some e ↦ some e
        | none ↦
            if holds (λ n. n == 0) input.max_payments
            then some max_payments_not_positive
            else if holds (λ t. ltb t now) input.expires_at
            then some expires_in_past
            else check_after_payment input after
      ]

  -- what an accepted link has
  pub record IsAccepted (input : LinkInput F) : Type 0 where
    pub titled : is_blank input.title ≡ false
    pub priced_in : is_blank input.currency ≡ false
    pub payable : 0 < input.allowed_tokens
    pub amounts :
        ((text_eq (to_lower (trim_space input.pricing_mode)) (codes "fixed") ≡ true)
          × (holds (λ a. not (le a zero)) input.amount ≡ true))
        ⊎ ((text_eq (to_lower (trim_space input.pricing_mode)) (codes "open") ≡ true)
            × (holds (λ a. lt a zero) input.min_amount ≡ false)
            × (holds (λ a. le a zero) input.max_amount ≡ false)
            × (min_above input ≡ false))
    pub limited : holds (λ n. n == 0) input.max_payments ≡ false
    pub unexpired : holds (λ t. ltb t now) input.expires_at ≡ false
    pub after :
        (text_eq (to_lower (trim_space input.after_payment_type)) [] ≡ true)
        ⊎ (text_eq (to_lower (trim_space input.after_payment_type)) (codes "confirmation_page")
            ≡ true)
        ⊎ ((text_eq (to_lower (trim_space input.after_payment_type)) (codes "redirect") ≡ true)
            × (is_blank input.redirect_url ≡ false)
            × (parse_request_uri input.redirect_url ≡ true))

module _ {F : Type 0} (fl : Float64 F) (parse_request_uri : Text → Bool) (now : ℕ)
    (input : LinkInput F) where
  open fl use {zero, lt, le}

  -- A link is accepted exactly when it has what `IsAccepted` lists.
  pub validate_link_input-none :
      (validate_link_input fl parse_request_uri now input ≡ none)
      ↔ IsAccepted fl parse_request_uri now input
  unfolding validate_link_input
  validate_link_input-none = (
    λ h. ground arith,
    λ h.
        let mode = to_lower (trim_space input.pricing_mode) in
        let after = to_lower (trim_space input.after_payment_type) in
        ground (
          arith,
          text_eq_exclusive mode (codes "fixed") (codes "open") refl,
          text_eq_exclusive after [] (codes "redirect") refl,
          text_eq_exclusive after (codes "confirmation_page") (codes "redirect") refl,
        ),
  )
