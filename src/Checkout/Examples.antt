-- ===== src/Checkout/Examples.antt =====
-- Tests of the confirmation of a session, and the theorems at concrete inputs.
use backend_go.Prelude.{
  ℕ, ◌≤◌, if◌then◌else◌, ◌⊎◌, ◌↔◌, true, false, none, some, [], ◌∷◌, Text, codes, ◌≡◌, ◌≢◌, refl,
  trim_space, text_eq,
}
use backend_go.Float.{fixed_point}
use backend_go.Ids
use backend_go.Payment.Status.{IntentStatus, intent_status_is_paid}
use backend_go.Payment.Pricing.{band, Band, resolve_intent_status, compute_bounds, round8}
use backend_go.Database.{
  broken, done, open_session, with_script, begin, exec, query, commit, rollback, pool_query,
}
use backend_go.Store.{Intent, CheckoutSession, SessionStatus, Tables, is_payable}
use backend_go.Checkout.Decision.{Totals, decide, aggregate, decide-session, decide-unconfirmed}
use backend_go.Checkout.Confirm.{
  ConfirmRequest, Services, confirm_checkout_session, confirm_by_ids, confirm_found, confirm_tx,
  transfer_of, queue_events, find_intent, upsert, parse_id, create_invoice,
}
use backend_go.Checkout.Quote.{
  Quotes, token_allowed, token_in_list, token_usd_price, first_available_price,
  settlement_amount_for_token, is_usd_stable_token, Quoted, IsFirst,
  settlement_amount_for_token-Quoted, first_available_price-IsFirst,
}
use backend_go.Checkout.Atomic.{SameRows, written, is_ok, confirm_tx-atomic}

abbrev merchant_text : Text
merchant_text = codes "01ARZ3NDEKTSV4RRFFQ69G5FAV"

abbrev session_text : Text
session_text = codes "01ARZ3NDEKTSV4RRFFQ69G5FAW"

abbrev services : Services
services = record {
  row_id = λ id. if text_eq id merchant_text then 1 else 3;
  json_valid = λ raw. true;
  add_invoice = λ intent. false;
  make_invoice = λ intent. none;
  now = 50;
}

abbrev awaiting : Intent
awaiting = record {
  id = 7;
  session = 3;
  link = 8;
  merchant = 1;
  chain = codes "base";
  token_symbol = codes "USDC";
  token_address = [];
  status = IntentStatus.awaiting_funds;
  expected = 20_000_000_000_000_000_000;
  tolerance = 0;
  min_acceptable = 5;
  max_acceptable = 5;
  received = 0;
  confirmations = 0;
  required = 12;
  tx_hash = [];
  expires_at = 100;
  confirmed_at = none;
  settled_at = none;
  updated_at = 40;
}

abbrev awaiting_session : CheckoutSession
awaiting_session = record {
  id = 3;
  link = 8;
  merchant = 1;
  customer = record { email = none; name = none; phone = none; address = codes "{}" };
  amount = 20_000_000_000_000_000_000;
  currency = codes "USD";
  chain = codes "base";
  token_symbol = codes "USDC";
  token_address = none;
  expires_at = 100;
  success_url = none;
  client_secret_hash = [];
  status = SessionStatus.awaiting_funds;
}

abbrev tables : Tables
tables = record {
  intents = awaiting ∷ [];
  sessions = awaiting_session ∷ [];
  deposits = [];
  payouts = [];
  items = [];
  transfers = [];
  invoices = [];
  outbox = [];
}

-- 25 of the expected 20, with one confirmation of twelve
abbrev request : ConfirmRequest ℕ
request = record {
  merchant_id = merchant_text;
  session_id = session_text;
  tx_hash = codes "0x1";
  received = 2_500_000_000;
  confirmations = 1;
  block_number = some 90;
  from_address = [];
  to_address = [];
  raw_payload = [];
}

-- the intent can be paid out, the session is not paid
early :
    let t = (confirm_checkout_session fixed_point services request (open_session tables)).1.db in
    (t.intents
      ≡ record awaiting {
        status = IntentStatus.overpaid;
        received = 25_000_000_000_000_000_000;
        confirmations = 1;
        tx_hash = codes "0x1";
        updated_at = 50;
      }
        ∷ [])
    × (t.sessions ≡ tables.sessions)
unfolding confirm_checkout_session confirm_by_ids confirm_found confirm_tx transfer_of queue_events
    find_intent upsert parse_id create_invoice decide aggregate resolve_intent_status begin exec
    query commit rollback pool_query trim_space Ids.parse Ids.is_valid Ids.is_crockford
    intent_status_is_paid compute_bounds round8
early = (refl, refl)

confirm_tx-atomic_example :
    let s = with_script tables (done ∷ done ∷ done ∷ broken ∷ []) in
    let after = confirm_tx fixed_point services awaiting request s in
    ((is_ok after.0 ≡ false) × (after.2.db ≡ s.db))
    ⊎ ((is_ok after.0 ≡ true)
        × SameRows after.2.db (written fixed_point services awaiting request s.db))
confirm_tx-atomic_example =
    confirm_tx-atomic fixed_point services awaiting request
      (with_script tables (done ∷ done ∷ done ∷ broken ∷ []))

abbrev unconfirmed : Totals
unconfirmed = record {
  received = 25_000_000_000_000_000_000;
  confirmed = 0;
  confirmations = 1;
  latest = codes "0x1";
}

decide-session_example :
    ((decide fixed_point 2_000_000_000 0 12 unconfirmed).session_status ≡ SessionStatus.paid) ↔ (
      (fixed_point.le (fixed_point.parse 0) fixed_point.zero ≡ false)
      × (band fixed_point 2_000_000_000 (fixed_point.parse 0) 0 ≢ Band.below))
decide-session_example = decide-session fixed_point 2_000_000_000 0 12 unconfirmed

decide-unconfirmed_example :
    ((is_payable (decide fixed_point 2_000_000_000 0 12 unconfirmed).intent_status ≡ true)
      × ((decide fixed_point 2_000_000_000 0 12 unconfirmed).session_status ≢ SessionStatus.paid))
    ↔ (((fixed_point.le (fixed_point.parse 0) fixed_point.zero ≡ true)
          ⊎ (band fixed_point 2_000_000_000 (fixed_point.parse 0) 0 ≡ Band.below))
        × (fixed_point.le (fixed_point.parse 25_000_000_000_000_000_000) fixed_point.zero ≡ false)
        × ((band fixed_point 2_000_000_000 (fixed_point.parse 25_000_000_000_000_000_000) 0
              ≡ Band.above)
            ⊎ ((band fixed_point 2_000_000_000 (fixed_point.parse 25_000_000_000_000_000_000) 0
                  ≡ Band.within)
                × (12 ≤ 1))))
decide-unconfirmed_example = decide-unconfirmed fixed_point 2_000_000_000 0 12 unconfirmed

-- one unit of HYPE is 20 dollars at the second source
abbrev quotes : Quotes ℕ
quotes = record {
  hyperliquid = λ symbol. none;
  bybit = λ category pair symbol. some 2_000_000_000;
  binance = λ pair symbol. none;
}

any_address :
    token_allowed
      (record { chain = codes "Base"; symbol = codes "usdc"; address = [] } ∷ [])
      (codes "base ")
      (codes "USDC")
      (codes "0x1")
    ≡ true
unfolding token_allowed token_in_list trim_space
any_address = refl

half_a_unit :
    settlement_amount_for_token fixed_point quotes 1_000_000_000 (codes "usd") (codes "hype")
    ≡ some 50_000_000
unfolding settlement_amount_for_token token_usd_price first_available_price is_usd_stable_token
    trim_space
half_a_unit = refl

settlement_amount_for_token-Quoted_example :
    (settlement_amount_for_token fixed_point quotes 1_000_000_000 (codes "usd") (codes "hype")
      ≡ some 50_000_000)
    ↔ Quoted fixed_point quotes 1_000_000_000 (codes "usd") (codes "hype") 50_000_000
settlement_amount_for_token-Quoted_example =
    settlement_amount_for_token-Quoted fixed_point quotes 1_000_000_000 50_000_000 (codes "usd")
      (codes "hype")

first_answer : first_available_price fixed_point quotes (none ∷ (some 0 ∷ (some 7 ∷ []))) ≡ some 7
unfolding first_available_price
first_answer = refl

first_available_price-IsFirst_example :
    IsFirst fixed_point quotes (none ∷ (some 0 ∷ (some 7 ∷ []))) 7
first_available_price-IsFirst_example =
    first_available_price-IsFirst fixed_point quotes (none ∷ (some 0 ∷ (some 7 ∷ []))) 7
      first_answer
