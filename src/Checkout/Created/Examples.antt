-- ===== src/Checkout/Created/Examples.antt =====
-- Tests of the creation of a session, and the theorems at concrete inputs.
use backend_go.Prelude.{
  ℕ, ◌+◌, ◌≤◌, true, false, none, some, [], ◌∷◌, codes, ◌≡◌, ◌⊎◌, refl, trim_space, err,
}
use backend_go.Float.{fixed_point}
use backend_go.Payment.Pricing.{compute_bounds, round8}
use backend_go.Payment.Status.{intent_status_is_paid}
use backend_go.Database.{
  broken, done, open_session, with_script, begin, exec, commit, rollback, pool_query,
}
use backend_go.Database.Transaction.{transact, exec_all}
use backend_go.Store.{Tables}
use backend_go.Checkout.Quote.{token_allowed, settlement_amount_for_token, is_usd_stable_token}
use backend_go.Checkout.Create.{
  LinkRow, CreateSessionInput, Setup, deposit_failed, session_expires_at, create_session,
  create_on_link, write_session_tx, plan_session, base_amount, resolve_token_address, encrypt_key,
  new_session, new_intent, new_deposit,
}
use backend_go.Checkout.Created.{session_expires_at_bounds, create_session-Outcome, Outcome}

-- a link of 20 dollars for one payment
abbrev link : LinkRow ℕ
link = record {
  id = 8;
  id_text = codes "01ARZ3NDEKTSV4RRFFQ69G5FAX";
  merchant = 1;
  code = codes "plink_1";
  pricing_mode = codes "fixed";
  amount = 2_000_000_000;
  min_amount = 0;
  max_amount = 0;
  adjust_percent = 1_000_000_000;
  currency = codes "USD";
  reusable = false;
  max_payments = none;
  expires_at = some 5_000;
  is_active = true;
  allowed_tokens = some [];
}

abbrev setup : Setup ℕ
setup = record {
  links = link ∷ [];
  row_id = λ id. 1;
  tolerance = 10_000_000;
  confirmations = λ chain. 12;
  quotes = record {
    hyperliquid = λ symbol. none;
    bybit = λ category pair symbol. none;
    binance = λ pair symbol. none;
  };
  generate_wallet = λ chain intent. some (record {
    address = codes "0xa";
    private_key = codes "k";
    wallet_type = none;
    factory_address = [];
    wallet_salt = [];
  });
  encrypt = λ key. some (codes "sealed");
  new_secret = some (codes "s");
  hash_token = λ token. codes "h";
  json_valid = λ raw. true;
  now = 50;
}

abbrev input : CreateSessionInput ℕ
input = record {
  merchant = none;
  link_identifier = codes " plink_1";
  amount = none;
  chain = codes "Base";
  token_symbol = codes "usdc";
  token_address = codes "0x1";
  customer_email = [];
  customer_name = [];
  customer_phone = [];
  customer_address = [];
  success_url = [];
  expires_in_sec = 0;
  metadata_json = [];
  include_secret = true;
}

abbrev no_rows : Tables
no_rows = record {
  intents = [];
  sessions = [];
  deposits = [];
  payouts = [];
  items = [];
  transfers = [];
  invoices = [];
  outbox = [];
}

-- 20 dollars and ten percent
abbrev expected_of : Tables → ℕ
expected_of t = elim t.intents [ [] ↦ 0 | i ∷ rest ↦ i.expected ]

adjusted_price :
    expected_of (create_session fixed_point setup input (open_session no_rows)).1.db
    ≡ 22_000_000_000_000_000_000
unfolding create_session create_on_link write_session_tx plan_session base_amount
    resolve_token_address encrypt_key session_expires_at new_session new_intent new_deposit transact
    exec_all begin exec commit rollback pool_query settlement_amount_for_token token_allowed
    is_usd_stable_token compute_bounds round8 trim_space intent_status_is_paid
adjusted_price = refl

-- the third statement fails
third_fails :
    (create_session fixed_point setup input
      (with_script no_rows (done ∷ (done ∷ (done ∷ (done ∷ (done ∷ (broken ∷ [])))))))).0
    ≡ err deposit_failed
unfolding create_session create_on_link write_session_tx plan_session base_amount
    resolve_token_address encrypt_key session_expires_at new_session new_intent new_deposit transact
    exec_all begin exec commit rollback pool_query settlement_amount_for_token token_allowed
    is_usd_stable_token compute_bounds round8 trim_space intent_status_is_paid
third_fails = refl

session_expires_at_bounds_example :
    (session_expires_at 50 90_000 (some 5_000) ≤ 50 + 86_400)
    × ((50 + 60 ≤ session_expires_at 50 90_000 (some 5_000))
        ⊎ (some 5_000 ≡ some (session_expires_at 50 90_000 (some 5_000))))
    × ((limit : ℕ) → some 5_000 ≡ some limit → session_expires_at 50 90_000 (some 5_000) ≤ limit)
session_expires_at_bounds_example = session_expires_at_bounds 50 90_000 (some 5_000)

create_session-Outcome_example :
    Outcome fixed_point setup input no_rows
      (create_session fixed_point setup input (open_session no_rows))
create_session-Outcome_example =
    create_session-Outcome fixed_point setup input (open_session no_rows)
