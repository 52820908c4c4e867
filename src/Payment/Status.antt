-- ===== src/Payment/Status.antt =====
-- The status column of checkout.payment_intents, and `IntentStatusIsPaid` of
-- internal/domain/payment/pricing.go, which reads a status as text.
use backend_go.Prelude.{
  Bool, true, false, ◌||◌, Text, codes, text_eq, trim_space, to_lower, ◌≡◌, refl,
}

pub data IntentStatus : Type 0 where
  created awaiting_funds partial overpaid confirmed settled expired failed : IntentStatus

abbrev pub status_text : IntentStatus → Text
status_text created = codes "created"
status_text awaiting_funds = codes "awaiting_funds"
status_text partial = codes "partial"
status_text overpaid = codes "overpaid"
status_text confirmed = codes "confirmed"
status_text settled = codes "settled"
status_text expired = codes "expired"
status_text failed = codes "failed"

unfoldable pub intent_status_is_paid : Text → Bool
unfolding trim_space
intent_status_is_paid status =
    let s = to_lower (trim_space status) in
    text_eq s (codes "confirmed") || (text_eq s (codes "overpaid") || text_eq s (codes "settled"))

abbrev pub is_paid_status : IntentStatus → Bool
is_paid_status confirmed = true
is_paid_status overpaid = true
is_paid_status settled = true
is_paid_status _ = false

pub intent_status_is_paid-text :
    (s : IntentStatus) → intent_status_is_paid (status_text s) ≡ is_paid_status s
unfolding intent_status_is_paid
intent_status_is_paid-text created = refl
intent_status_is_paid-text _ = refl
