-- ===== src/Checkout/Create.antt =====
-- `createSession` of internal/services/checkoutsvc/service.go, for CreateCheckoutSession and
-- CreatePublicCheckoutSession. The catalog tables are read only; the price sources, the wallet
-- generator, the cipher, the random source, the hash and JSON syntax are parameters.
use backend_go.Prelude.{
  ℕ, suc, ◌+◌, Bool, true, false, not, ◌&&◌, ◌||◌, Option, none, some, List, [], ◌∷◌, ◌++◌, Text,
  codes, text_eq, trim_space, to_lower, to_upper, find, count, ltb, ◌==◌, if◌then◌else◌, Result, ok,
  err, ◌>>=◌, ◌>>◌, require, of_option, on_ok,
}
use backend_go.Float.{Float64}
use backend_go.Ids
use backend_go.Payment.Status.{IntentStatus, is_paid_status}
use backend_go.Payment.Pricing.{compute_bounds}
use backend_go.Payment.Link.{is_blank}
use backend_go.Tokens.{TokenContract, known_evm_token_contract}
use backend_go.Database.{Session, pool_query}
use backend_go.Database.Transaction.{
  TxResult, committed, not_begun, not_committed, statement_failed, transact,
}
use backend_go.Store.{
  Intent, CheckoutSession, SessionStatus, Deposit, DepositStatus, WalletType, Tables,
  enqueue_outbox,
}
use backend_go.Checkout.Quote.{AllowedToken, token_allowed, Quotes, settlement_amount_for_token}

-- a row of catalog.payment_links, the amounts as `parseFloatValue` reads them (zero for NULL), the
-- allowed tokens as the JSON decoder does
pub record LinkRow (F : Type 0) : Type 0 where
  pub id : ℕ
  pub id_text : Text
  pub merchant : ℕ
  pub code : Text
  pub pricing_mode : Text
  pub amount : F
  pub min_amount : F
  pub max_amount : F
  pub adjust_percent : F
  pub currency : Text
  pub reusable : Bool
  pub max_payments : Option ℕ
  pub expires_at : Option ℕ
  pub is_active : Bool
  pub allowed_tokens : Option (List AllowedToken)

-- createSessionInput; `expires_in_sec` is 0 for what is not positive
pub record CreateSessionInput (F : Type 0) : Type 0 where
  pub merchant : Option ℕ
  pub link_identifier : Text
  pub amount : Option F
  pub chain : Text
  pub token_symbol : Text
  pub token_address : Text
  pub customer_email : Text
  pub customer_name : Text
  pub customer_phone : Text
  pub customer_address : Text
  pub success_url : Text
  pub expires_in_sec : ℕ
  pub metadata_json : Text
  pub include_secret : Bool

-- chain.DepositWallet; the type is none for a blank one
pub record DepositWallet : Type 0 where
  pub address : Text
  pub private_key : Text
  pub wallet_type : Option WalletType
  pub factory_address : Text
  pub wallet_salt : Text

pub record Setup (F : Type 0) : Type 0 where
  pub links : List (LinkRow F)
  pub row_id : Text → ℕ
  pub tolerance : F
  pub confirmations : Text → ℕ
  pub quotes : Quotes F
  pub generate_wallet : Text → ℕ → Option DepositWallet
  pub encrypt : Text → Option Text
  pub new_secret : Option Text
  pub hash_token : Text → Text
  pub json_valid : Text → Bool
  pub now : ℕ

pub data CreateError : Type 0 where
  bad_merchant_id link_required chain_and_token_required link_not_found load_failed not_active
        link_expired reusable_check_failed already_paid max_check_failed max_reached
        invalid_fixed_amount amount_required below_min above_max bad_allowed_tokens
        token_not_allowed quote_unavailable wallet_failed encrypt_failed secret_failed
        bad_customer_address bad_metadata begin_failed session_failed intent_failed deposit_failed
        outbox_failed commit_failed :
      CreateError

abbrev pub opt_text : Text → Option Text
opt_text s = if is_blank s then none else some (trim_space s)

abbrev pub text_or_empty : Option Text → Text
text_or_empty none = []
text_or_empty (some s) = s

-- what the handler has computed when its transaction begins
pub record SessionPlan (F : Type 0) : Type 0 where
  pub amount : F
  pub expected : F
  pub token_address : Text
  pub expires_at : ℕ
  pub wallet : DepositWallet
  pub wallet_type : WalletType
  pub encrypted_key : Text
  pub secret : Text
  pub address_json : Text

pub record CreatedSession (F : Type 0) : Type 0 where
  pub id : ℕ
  pub intent : ℕ
  pub plan : SessionPlan F
  pub client_secret : Text

-- the query of the link, with the merchant or without
abbrev pub link_matches : {F : Type 0} → Option ℕ → Text → LinkRow F → Bool
link_matches none identifier l = text_eq l.id_text identifier || text_eq l.code identifier
link_matches (some m) identifier l =
    l.merchant == m && (text_eq l.id_text identifier || text_eq l.code identifier)

abbrev pub is_past : ℕ → Option ℕ → Bool
is_past now none = false
is_past now (some t) = ltb t now

-- SELECT COUNT(*) … status IN ('confirmed', 'overpaid', 'settled')
abbrev pub paid_count : ℕ → Tables → ℕ
paid_count link t = count (λ (i : Intent). i.link == link && is_paid_status i.status) t.intents

-- a query that is made under a condition only
abbrev pub query_if : Bool → Session Tables → Bool × Session Tables
query_if true s = pool_query s
query_if false s = (true, s)

abbrev pub is_limited : Option ℕ → Bool
is_limited none = false
is_limited (some n) = true

abbrev pub below_limit : ℕ → Option ℕ → Bool
below_limit n none = true
below_limit n (some limit) = ltb n limit

abbrev pub earlier : Option ℕ → ℕ → ℕ
earlier none t = t
earlier (some limit) t = if ltb limit t then limit else t

abbrev pub clamp_seconds : ℕ → ℕ
clamp_seconds n = if ltb n 60 then 60 else if ltb 86_400 n then 86_400 else n

unfoldable pub session_expires_at : ℕ → ℕ → Option ℕ → ℕ
session_expires_at now expires_in_sec link_expires_at =
    earlier link_expires_at
      (now + (if expires_in_sec == 0 then 1_800 else clamp_seconds expires_in_sec))

abbrev pub normalize_json : (Text → Bool) → Text → Text → Option Text
normalize_json json_valid raw default =
    if is_blank raw then some default else if json_valid raw then some raw else none

module _ {F : Type 0} (fl : Float64 F) (c : Setup F) where
  open fl use {zero, hundred, add, mul, div, lt, le, numeric}

  abbrev pub is_zero : F → Bool
  is_zero a = le a zero && le zero a

  abbrev pub is_fixed : LinkRow F → Bool
  is_fixed l = text_eq (to_lower l.pricing_mode) (codes "fixed")

  -- the amount in the link's currency, before its adjustment
  unfoldable pub base_amount : LinkRow F → Option F → Result CreateError F
  base_amount l requested =
      if is_fixed l
      then (if le l.amount zero then err invalid_fixed_amount else ok l.amount)
      else elim requested [
        | none ↦ err amount_required
        | some a ↦
            if le a zero
            then err amount_required
            else if lt zero l.min_amount && lt a l.min_amount
            then err below_min
            else if lt zero l.max_amount && lt l.max_amount a
            then err above_max
            else ok a
      ]

  abbrev pub adjusted : F → F → F
  adjusted percent amount =
      if is_zero percent then amount else add amount (div (mul amount percent) hundred)

  abbrev pub contract_address : Option TokenContract → Text
  contract_address none = []
  contract_address (some contract) = contract.address

  -- the token's address, from the request or the table
  unfoldable pub resolve_token_address : CreateSessionInput F → Text
  resolve_token_address r =
      if is_blank r.token_address
      then contract_address (known_evm_token_contract r.chain r.token_symbol)
      else trim_space r.token_address

  abbrev pub type_or_eoa : Option WalletType → WalletType
  type_or_eoa none = WalletType.eoa
  type_or_eoa (some t) = t

  unfoldable pub encrypt_key : WalletType → DepositWallet → Result CreateError Text
  encrypt_key WalletType.create2 w = ok []
  encrypt_key WalletType.eoa w =
      if is_blank w.private_key
      then err wallet_failed
      else of_option encrypt_failed (c.encrypt w.private_key)

  -- from the pricing of the link to the metadata
  unfoldable pub plan_session :
      LinkRow F → CreateSessionInput F → ℕ → Result CreateError (SessionPlan F)
  unfolding base_amount resolve_token_address encrypt_key session_expires_at
  plan_session l r intent = do
    base ← base_amount l r.amount
    let amount = adjusted l.adjust_percent base
    let token_address = resolve_token_address r
    allowed ← of_option bad_allowed_tokens l.allowed_tokens
    require (token_allowed allowed r.chain r.token_symbol token_address) token_not_allowed
    expected ←
        of_option quote_unavailable
          (settlement_amount_for_token fl c.quotes amount l.currency r.token_symbol)
    wallet ← of_option wallet_failed (c.generate_wallet r.chain intent)
    let wallet_type = type_or_eoa wallet.wallet_type
    encrypted_key ← encrypt_key wallet_type wallet
    secret ← of_option secret_failed c.new_secret
    address_json ←
        of_option bad_customer_address (normalize_json c.json_valid r.customer_address (codes "{}"))
    metadata ← of_option bad_metadata (normalize_json c.json_valid r.metadata_json (codes "{}"))
    ok (record {
      amount = amount;
      expected = expected;
      token_address = token_address;
      expires_at = session_expires_at c.now r.expires_in_sec l.expires_at;
      wallet = wallet;
      wallet_type = wallet_type;
      encrypted_key = encrypted_key;
      secret = secret;
      address_json = address_json;
    })

  unfoldable pub new_session :
      ℕ → LinkRow F → CreateSessionInput F → SessionPlan F → CheckoutSession
  new_session id l r p = record {
    id = id;
    link = l.id;
    merchant = l.merchant;
    customer = record {
      email = opt_text r.customer_email;
      name = opt_text r.customer_name;
      phone = opt_text r.customer_phone;
      address = p.address_json;
    };
    amount = numeric p.amount;
    currency = l.currency;
    chain = to_lower r.chain;
    token_symbol = to_upper r.token_symbol;
    token_address = opt_text p.token_address;
    expires_at = p.expires_at;
    success_url = opt_text r.success_url;
    client_secret_hash = c.hash_token p.secret;
    status = SessionStatus.awaiting_funds;
  }

  unfoldable pub new_intent : ℕ → ℕ → LinkRow F → CreateSessionInput F → SessionPlan F → Intent
  new_intent id session l r p =
      let (lo, hi) = compute_bounds fl p.expected c.tolerance in
      record {
        id = id;
        session = session;
        link = l.id;
        merchant = l.merchant;
        chain = to_lower r.chain;
        token_symbol = to_upper r.token_symbol;
        token_address = text_or_empty (opt_text p.token_address);
        status = IntentStatus.awaiting_funds;
        expected = numeric p.expected;
        tolerance = numeric c.tolerance;
        min_acceptable = numeric lo;
        max_acceptable = numeric hi;
        received = 0;
        confirmations = 0;
        required = c.confirmations r.chain;
        tx_hash = [];
        expires_at = p.expires_at;
        confirmed_at = none;
        settled_at = none;
        updated_at = c.now;
      }

  unfoldable pub new_deposit : ℕ → SessionPlan F → Deposit
  new_deposit intent p = record {
    intent = intent;
    address = p.wallet.address;
    wallet_type = p.wallet_type;
    encrypted_key = p.encrypted_key;
    factory_address = text_or_empty (opt_text p.wallet.factory_address);
    wallet_salt = text_or_empty (opt_text p.wallet.wallet_salt);
    status = DepositStatus.active;
  }

  -- the four statements of the transaction
  abbrev pub create_statements :
      ℕ → ℕ → LinkRow F → CreateSessionInput F → SessionPlan F → List (Tables → Tables)
  create_statements session intent l r p =
      (λ (t : Tables). record t { sessions = t.sessions ++ new_session session l r p ∷ [] })
      ∷ ((λ (t : Tables). record t { intents = t.intents ++ new_intent intent session l r p ∷ [] })
          ∷ ((λ (t : Tables). record t { deposits = t.deposits ++ new_deposit intent p ∷ [] })
              ∷ (enqueue_outbox intent l.merchant (codes "payment_intent.created") ∷ [])))

  abbrev pub tx_error : TxResult → Result CreateError (Unit {0})
  tx_error committed = ok tt
  tx_error not_begun = err begin_failed
  tx_error not_committed = err commit_failed
  tx_error (statement_failed n) = err (
      if n == 0
      then session_failed
      else if n == 1
      then intent_failed
      else if n == 2
      then deposit_failed
      else outbox_failed)

  -- with the plan made: `session` and `intent` are the ids drawn for it, the next is the address's
  unfoldable pub write_session_tx :
      LinkRow F
      → CreateSessionInput F
      → ℕ
      → ℕ
      → SessionPlan F
      → Session Tables
      → Result CreateError (CreatedSession F) × Session Tables
  write_session_tx l r session intent p s =
      let (result, s') = transact (create_statements session intent l r p) s in
      (
        do
          tx_error result
          ok (record {
            id = session;
            intent = intent;
            plan = p;
            client_secret = if r.include_secret then p.secret else [];
          }),
        s',
      )

  -- a link that was found, checked against the clock and its payments
  unfoldable pub create_on_link :
      LinkRow F
      → CreateSessionInput F
      → Session Tables
      → Result CreateError (CreatedSession F) × Session Tables
  create_on_link l r s =
      on_ok
        (do require l.is_active not_active; require (not (is_past c.now l.expires_at)) link_expired)
        s
        (λ u.
          let (counted, s1) = query_if (not l.reusable) s in
          on_ok
            (do
              require counted reusable_check_failed
              require (l.reusable || paid_count l.id s1.db == 0) already_paid)
            s1
            (λ u.
              let (counted', s2) = query_if (is_limited l.max_payments) s1 in
              on_ok
                (do
                  require counted' max_check_failed
                  require (below_limit (paid_count l.id s2.db) l.max_payments) max_reached)
                s2
                (λ u.
                  let session = s2.next_id in
                  let intent = suc session in
                  let s3 = record s2 { next_id = suc (suc intent) } in
                  on_ok (plan_session l r intent) s3
                    (λ p. write_session_tx l r session intent p s3))))

  unfoldable pub create_session :
      CreateSessionInput F → Session Tables → Result CreateError (CreatedSession F) × Session Tables
  create_session r s =
      let identifier = trim_space r.link_identifier in
      on_ok
        (do
          require (not (text_eq identifier [])) link_required
          require (not (is_blank r.chain || is_blank r.token_symbol)) chain_and_token_required)
        s
        (λ u.
          let (loaded, s1) = pool_query s in
          on_ok
            (do
              require loaded load_failed
              of_option link_not_found (find (link_matches r.merchant identifier) c.links))
            s1 (λ l. create_on_link l r s1))

  -- CreateCheckoutSession and CreatePublicCheckoutSession; the input's other fields are the request's
  unfoldable pub create_checkout_session :
      Text
      → CreateSessionInput F
      → Session Tables
      → Result CreateError (CreatedSession F) × Session Tables
  create_checkout_session merchant_id r s =
      on_ok (of_option bad_merchant_id (Ids.parse (trim_space merchant_id))) s
        (λ m. create_session (record r { merchant = some (c.row_id m); include_secret = false }) s)

  unfoldable pub create_public_checkout_session :
      CreateSessionInput F → Session Tables → Result CreateError (CreatedSession F) × Session Tables
  create_public_checkout_session r s =
      create_session (record r { merchant = none; include_secret = true }) s
