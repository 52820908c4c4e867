-- ===== src/Checkout/Decision.antt =====
-- The statuses that `ConfirmCheckoutSession` computes from the intent's transfers.
use backend_go.Prelude.{
  ℕ, ◌+◌, ◌≤◌, Bool, true, false, ◌&&◌, ◌||◌, Option, none, some, List, [], ◌∷◌, Text, ltb, leb,
  ◌==◌, ◌≡◌, ◌≢◌, ◌↔◌, ◌⊎◌, arith, if◌then◌else◌,
}
use backend_go.Float.{Float64}
use backend_go.Payment.Status.{
  IntentStatus, intent_status_is_paid, intent_status_is_paid-text, status_text,
}
use backend_go.Payment.Pricing.{resolve_intent_status, band, below, within, above}
use backend_go.Store.{SessionStatus, Transfer, is_payable}

-- the aggregate query over checkout.chain_transactions
pub record Totals : Type 0 where
  pub received : ℕ
  pub confirmed : ℕ
  pub confirmations : ℕ
  pub latest : Text

abbrev pub of_intent : ℕ → Transfer → Bool
of_intent intent r = r.intent == intent

abbrev pub sum_amounts : (Transfer → Bool) → List Transfer → ℕ
sum_amounts p [] = 0
sum_amounts p (r ∷ transfers) =
    let rest = sum_amounts p transfers in if p r then r.amount + rest else rest

-- MIN(confirmations), none for no row
abbrev pub min_confirmations : ℕ → List Transfer → Option ℕ
min_confirmations intent [] = none
min_confirmations intent (r ∷ transfers) =
    let rest = min_confirmations intent transfers in
    if of_intent intent r
    then elim rest [
      | none ↦ some r.confirmations
      | some m ↦ some (if ltb r.confirmations m then r.confirmations else m)
    ]
    else rest

-- the first row in the order observed_at DESC, created_at DESC
abbrev pub is_newer : Transfer → Transfer → Bool
is_newer a b =
    ltb b.observed_at a.observed_at
    || (a.observed_at == b.observed_at && ltb b.created_at a.created_at)

abbrev pub newest : ℕ → List Transfer → Option Transfer
newest intent [] = none
newest intent (r ∷ transfers) =
    let rest = newest intent transfers in
    if of_intent intent r
    then elim rest [ none ↦ some r | some m ↦ some (if is_newer m r then m else r) ]
    else rest

abbrev pub or_default : {A : Type 0} → A → Option A → A
or_default d none = d
or_default d (some a) = a

abbrev pub hash_of : Option Transfer → Text
hash_of none = []
hash_of (some r) = r.tx_hash

unfoldable pub aggregate : ℕ → ℕ → List Transfer → Totals
aggregate intent required transfers = record {
  received = sum_amounts (of_intent intent) transfers;
  confirmed = sum_amounts (λ r. of_intent intent r && leb required r.confirmations) transfers;
  confirmations = or_default 0 (min_confirmations intent transfers);
  latest = hash_of (newest intent transfers);
}

pub record Decision : Type 0 where
  pub is_paid : Bool
  pub intent_status : IntentStatus
  pub session_status : SessionStatus

abbrev pub is_dead : IntentStatus → Bool
is_dead IntentStatus.expired = true
is_dead IntentStatus.failed = true
is_dead _ = false

module _ {F : Type 0} (fl : Float64 F) where
  open fl use {zero, le, parse}

  unfoldable pub decide : F → F → ℕ → Totals → Decision
  decide expected tolerance required t =
      let confirmed_status =
        resolve_intent_status fl expected (parse t.confirmed) tolerance required required in
      let paid = intent_status_is_paid (status_text confirmed_status) in
      let new_status =
        if paid
        then confirmed_status
        else resolve_intent_status fl expected (parse t.received) tolerance t.confirmations
            required in
      record {
        is_paid = paid;
        intent_status = new_status;
        session_status =
            if paid
            then SessionStatus.paid
            else if is_dead new_status
            then SessionStatus.failed
            else SessionStatus.awaiting_funds;
      }

  module _ (expected tolerance : F) (required : ℕ) (t : Totals) where
    -- The session is marked paid exactly if the transfers that have the required confirmations sum
    -- to something positive that is not below the accepted range; otherwise it awaits funds.
    pub decide-session :
        ((decide expected tolerance required t).session_status ≡ SessionStatus.paid) ↔ (
          (le (parse t.confirmed) zero ≡ false)
          × (band fl expected (parse t.confirmed) tolerance ≢ below))
    unfolding decide resolve_intent_status band
    decide-session = rw intent_status_is_paid-text (λ h. ground arith, λ h. ground arith)

    -- The intent can be marked payable while its session is not paid, and exactly then: the
    -- confirmed transfers do not pay it, and all transfers together are above the accepted range,
    -- or in the range with the confirmations reached.
    pub decide-unconfirmed :
        ((is_payable (decide expected tolerance required t).intent_status ≡ true)
          × ((decide expected tolerance required t).session_status ≢ SessionStatus.paid))
        ↔ (((le (parse t.confirmed) zero ≡ true)
              ⊎ (band fl expected (parse t.confirmed) tolerance ≡ below))
            × (le (parse t.received) zero ≡ false)
            × ((band fl expected (parse t.received) tolerance ≡ above)
                ⊎ ((band fl expected (parse t.received) tolerance ≡ within)
                    × (required ≤ t.confirmations))))
    unfolding decide resolve_intent_status band
    decide-unconfirmed = rw intent_status_is_paid-text (λ h. ground arith, λ h. ground arith)
