-- ===== src/Links.antt =====
-- CreatePaymentLink, ArchivePaymentLink, UpdatePaymentLink and newLinkCode of
-- internal/services/paymentlinksvc/service.go. JSON, time.Parse, url.ParseRequestURI and the random
-- bytes are parameters; the JSON of the lists of a request is part of the request here.
pub mod Accepted
mod Examples
use backend_go.Prelude.{
  ℕ, suc, ◌+◌, ◌%◌, Bool, true, false, not, ◌&&◌, ◌||◌, Option, none, some, List, [], ◌∷◌, ◌++◌,
  Text, codes, text_eq, map, get_elem?, trim_space, to_lower, to_upper, any, count, ◌==◌,
  if◌then◌else◌, Result, ok, err, ◌>>=◌, ◌>>◌, require, of_option, on_ok,
}
use backend_go.Float.{Float64}
use backend_go.Ids
use backend_go.Payment.Link.{LinkInput, LinkError, validate_link_input, is_blank}
use backend_go.Database.{Session, pool_exec, pool_query}
use backend_go.Database.Transaction.{
  TxResult, committed, not_begun, not_committed, statement_failed, transact,
}
use backend_go.Store.{Queued, update_where}
use backend_go.Checkout.Create.{normalize_json}

pub record AfterPayment : Type 0 where
  pub kind : Text
  pub success_message : Text
  pub redirect_url : Text

pub record CollectOptions : Type 0 where
  pub email : Bool
  pub name : Bool
  pub phone : Bool
  pub address : Bool
  pub business_name : Bool
  pub terms : Bool
  pub promo_codes : Bool
  pub tax : Bool
  pub invoice_pdf : Bool

-- a request; `max_payments` is 0 for what is not positive, `allowed_tokens` counts the tokens
pub record CreateLinkRequest (F : Type 0) : Type 0 where
  pub merchant_id : Text
  pub product_id : Text
  pub title : Text
  pub description : Text
  pub image_url : Text
  pub pricing_mode : Text
  pub amount : Option F
  pub currency : Text
  pub reusable : Option Bool
  pub max_payments : Option ℕ
  pub expires_at : Text
  pub cta_text : Text
  pub after_payment : Option AfterPayment
  pub adjust_percent : Option F
  pub min_amount : Option F
  pub max_amount : Option F
  pub allowed_tokens : ℕ
  pub allowed_tokens_json : Text
  pub customer_fields_json : Text
  pub custom_fields_json : Text
  pub metadata_json : Text
  pub collect : CollectOptions
  pub options_metadata_json : Text

pub record UpdateLinkRequest (F : Type 0) : Type 0 where
  pub title : Text
  pub pricing_mode : Text
  pub amount : Option F
  pub currency : Text
  pub metadata_json : Text
  pub update_allowed_tokens : Bool
  pub allowed_tokens_json : Text

pub data LinkStatus : Type 0 where
  active archived : LinkStatus

-- a row of catalog.payment_links; the prices are as the columns store them
pub record PaymentLink (F : Type 0) : Type 0 where
  pub id : ℕ
  pub merchant : ℕ
  pub product : Option ℕ
  pub code : Text
  pub title : Text
  pub description : Text
  pub image_url : Text
  pub pricing_mode : Text
  pub amount : Option F
  pub currency : Text
  pub reusable : Bool
  pub max_payments : Option ℕ
  pub expires_at : Option ℕ
  pub cta_text : Text
  pub after_payment : AfterPayment
  pub status : LinkStatus
  pub adjust_percent : F
  pub min_amount : Option F
  pub max_amount : Option F
  pub allowed_tokens : Text
  pub customer_fields : Text
  pub custom_fields : Text
  pub metadata : Text

pub record LinkOptions : Type 0 where
  pub link : ℕ
  pub collect : CollectOptions
  pub metadata : Text

pub record Product : Type 0 where
  pub id : ℕ
  pub merchant : ℕ

pub record Catalog (F : Type 0) : Type 0 where
  pub links : List (PaymentLink F)
  pub options : List LinkOptions
  pub products : List Product
  pub outbox : List Queued

-- `random` has the 16 bytes of rand.Read
pub record LinkSetup : Type 0 where
  pub row_id : Text → ℕ
  pub id_text : ℕ → Text
  pub json_valid : Text → Bool
  pub parse_time : Text → Option ℕ
  pub parse_request_uri : Text → Bool
  pub random : Option (List ℕ)
  pub now : ℕ

pub data CreateLinkError : Type 0 where
  bad_merchant_id bad_expires_at code_failed bad_metadata bad_options_metadata bad_product_id
        lookup_failed product_not_found begin_failed link_failed options_failed outbox_failed
        commit_failed id_required title_required update_failed not_found :
      CreateLinkError
  invalid : LinkError → CreateLinkError

abbrev pub alphabet : Text
alphabet = codes "0123456789ABCDEFGHJKMNPQRSTVWXYZ"

abbrev pub letter : Option ℕ → ℕ
letter none = 0
letter (some c) = c

-- newLinkCode, from its random bytes
unfoldable pub new_link_code : List ℕ → Text
new_link_code buf = map (λ b. letter (get_elem? alphabet (b % 32))) buf

abbrev pub or_default : Text → Text → Text
or_default default s = if is_blank s then default else s

abbrev pub after_or_default : Option AfterPayment → AfterPayment
after_or_default none = record {
  kind = codes "confirmation_page";
  success_message = [];
  redirect_url = [];
}
after_or_default (some a) = record a { kind = or_default (codes "confirmation_page") a.kind }

abbrev pub true_or : Option Bool → Bool
true_or none = true
true_or (some b) = b

abbrev pub mode_for : {F : Type 0} → Option F → Text
mode_for none = codes "open"
mode_for (some a) = codes "fixed"

abbrev pub optional_time : (Text → Option ℕ) → Text → Result CreateLinkError (Option ℕ)
optional_time parse raw =
    if is_blank raw
    then ok none
    else elim (parse (trim_space raw)) [ none ↦ err bad_expires_at | some t ↦ ok (some t) ]

abbrev pub accept : Option LinkError → Result CreateLinkError (Unit {0})
accept none = ok tt
accept (some e) = err (invalid e)

-- what is computed before the product is looked up
pub record LinkPlan (F : Type 0) : Type 0 where
  pub merchant : ℕ
  pub input : LinkInput F
  pub code : Text
  pub metadata : Text
  pub options_metadata : Text

module _ {F : Type 0} (fl : Float64 F) (c : LinkSetup) where
  -- the request with its defaults, as the rules see it
  abbrev pub link_input : CreateLinkRequest F → Option ℕ → LinkInput F
  link_input r expires = record {
    title = r.title;
    pricing_mode = or_default (mode_for r.amount) r.pricing_mode;
    amount = r.amount;
    currency = or_default (codes "USD") r.currency;
    allowed_tokens = r.allowed_tokens;
    reusable = true_or r.reusable;
    max_payments = r.max_payments;
    expires_at = expires;
    after_payment_type = (after_or_default r.after_payment).kind;
    redirect_url = (after_or_default r.after_payment).redirect_url;
    min_amount = r.min_amount;
    max_amount = r.max_amount;
  }

  unfoldable pub parse_id : Text → CreateLinkError → Result CreateLinkError ℕ
  parse_id raw e = elim (Ids.parse (trim_space raw)) [ none ↦ err e | some id ↦ ok (c.row_id id) ]

  unfoldable pub plan_link : CreateLinkRequest F → Result CreateLinkError (LinkPlan F)
  unfolding parse_id
  plan_link r = do
    merchant ← parse_id r.merchant_id bad_merchant_id
    expires ← optional_time c.parse_time r.expires_at
    accept (validate_link_input fl c.parse_request_uri c.now (link_input r expires))
    buf ← of_option code_failed c.random
    metadata ← of_option bad_metadata (normalize_json c.json_valid r.metadata_json (codes "{}"))
    options_metadata ←
        of_option bad_options_metadata
          (normalize_json c.json_valid r.options_metadata_json (codes "{}"))
    ok (record {
      merchant = merchant;
      input = link_input r expires;
      code = new_link_code buf;
      metadata = metadata;
      options_metadata = options_metadata;
    })

  -- the product of a merchant, if one is named
  unfoldable pub find_product :
      ℕ → Text → Session (Catalog F) → Result CreateLinkError (Option ℕ) × Session (Catalog F)
  unfolding parse_id
  find_product merchant raw s =
      if is_blank raw
      then (ok none, s)
      else on_ok (parse_id raw bad_product_id) s (λ id.
        let (found, s1) = pool_query s in
        (
          do
            require found lookup_failed
            require (any (λ (p : Product). p.id == id && p.merchant == merchant) s1.db.products)
                product_not_found
            ok (some id),
          s1,
        ))

  abbrev pub zero_or : Option F → F
  zero_or none = fl.zero
  zero_or (some a) = a

  unfoldable pub new_link : ℕ → Option ℕ → CreateLinkRequest F → LinkPlan F → PaymentLink F
  new_link id product r p = record {
    id = id;
    merchant = p.merchant;
    product = product;
    code = p.code;
    title = r.title;
    description = r.description;
    image_url = r.image_url;
    pricing_mode = to_lower p.input.pricing_mode;
    amount = r.amount;
    currency = to_upper p.input.currency;
    reusable = p.input.reusable;
    max_payments = r.max_payments;
    expires_at = p.input.expires_at;
    cta_text = or_default (codes "Pay") r.cta_text;
    after_payment = record (after_or_default r.after_payment) {
      kind = to_lower (after_or_default r.after_payment).kind;
    };
    status = LinkStatus.active;
    adjust_percent = zero_or r.adjust_percent;
    min_amount = r.min_amount;
    max_amount = r.max_amount;
    allowed_tokens = r.allowed_tokens_json;
    customer_fields = r.customer_fields_json;
    custom_fields = r.custom_fields_json;
    metadata = p.metadata;
  }

  abbrev pub queue_event : ℕ → ℕ → Text → Catalog F → Catalog F
  queue_event id merchant event_type t = record t {
    outbox =
        t.outbox ++ record { aggregate = id; merchant = merchant; event_type = event_type } ∷ [];
  }

  abbrev pub link_statements :
      ℕ → Option ℕ → CreateLinkRequest F → LinkPlan F → List (Catalog F → Catalog F)
  link_statements id product r p =
      (λ (t : Catalog F). record t { links = t.links ++ new_link id product r p ∷ [] })
      ∷ ((λ (t : Catalog F). record t {
        options =
            t.options
            ++ record { link = id; collect = r.collect; metadata = p.options_metadata } ∷ [];
      })
          ∷ (queue_event id p.merchant (codes "payment_link.created") ∷ []))

  abbrev pub tx_error : TxResult → Result CreateLinkError (Unit {0})
  tx_error committed = ok tt
  tx_error not_begun = err begin_failed
  tx_error not_committed = err commit_failed
  tx_error (statement_failed n) =
      err (if n == 0 then link_failed else if n == 1 then options_failed else outbox_failed)

  -- the id is drawn before the product is looked up, and used here
  abbrev pub write_link :
      CreateLinkRequest F
      → LinkPlan F
      → ℕ
      → Option ℕ
      → Session (Catalog F)
      → Result CreateLinkError ℕ × Session (Catalog F)
  write_link r p id product s =
      let (result, s') = transact (link_statements id product r p) s in
      (do tx_error result; ok id, s')

  unfoldable pub create_payment_link :
      CreateLinkRequest F → Session (Catalog F) → Result CreateLinkError ℕ × Session (Catalog F)
  unfolding plan_link find_product new_link
  create_payment_link r s = on_ok (plan_link r) s (λ p.
      let s0 = record s { next_id = suc s.next_id } in
      let (product, s1) = find_product p.merchant r.product_id s0 in
      on_ok product s1 (λ product. write_link r p s.next_id product s1))

  -- a link of the merchant, by its id or its code, that is not archived
  abbrev pub is_link : ℕ → Text → PaymentLink F → Bool
  is_link merchant id l =
      l.merchant == merchant
      && ((text_eq (c.id_text l.id) id || text_eq l.code id)
          && elim l.status [ LinkStatus.archived ↦ false | LinkStatus.active ↦ true ])

  abbrev pub update_links : (PaymentLink F → PaymentLink F) → ℕ → Text → Catalog F → Catalog F
  update_links f merchant id t = record t { links = update_where (is_link merchant id) f t.links }

  abbrev pub link_request : Text → Text → Result CreateLinkError ℕ
  link_request merchant_id id = do
    merchant ← parse_id merchant_id bad_merchant_id
    require (not (is_blank id)) id_required
    ok merchant

  abbrev pub updated : Bool → ℕ → Result CreateLinkError (Unit {0})
  updated done affected = do require done update_failed; require (not (affected == 0)) not_found

  -- the event is queued with the request's id, an id or a code
  unfoldable pub archive_payment_link :
      Text → Text → Session (Catalog F) → Result CreateLinkError Text × Session (Catalog F)
  unfolding parse_id
  archive_payment_link merchant_id raw s =
      let id = trim_space raw in
      on_ok (link_request merchant_id raw) s (λ merchant.
        let affected = count (is_link merchant id) s.db.links in
        let (done, s1) =
          pool_exec (update_links (λ l. record l { status = LinkStatus.archived }) merchant id) s in
        on_ok (updated done affected) s1 (λ u. (
          ok id,
          (pool_exec (queue_event (c.row_id id) merchant (codes "payment_link.archived")) s1).1,
        )))

  abbrev pub update_request : Text → Text → UpdateLinkRequest F → Result CreateLinkError (ℕ × Text)
  update_request merchant_id id r = do
    merchant ← link_request merchant_id id
    require (not (is_blank r.title)) title_required
    metadata ← of_option bad_metadata (normalize_json c.json_valid r.metadata_json (codes "{}"))
    ok (merchant, metadata)

  abbrev pub edit_link : UpdateLinkRequest F → Text → PaymentLink F → PaymentLink F
  edit_link r metadata l = record l {
    title = trim_space r.title;
    pricing_mode = to_lower (or_default (codes "fixed") (trim_space r.pricing_mode));
    amount = r.amount;
    currency = to_upper (or_default (codes "USD") (trim_space r.currency));
    metadata = metadata;
    allowed_tokens = if r.update_allowed_tokens then r.allowed_tokens_json else l.allowed_tokens;
  }

  unfoldable pub update_payment_link :
      Text
      → Text
      → UpdateLinkRequest F
      → Session (Catalog F)
      → Result CreateLinkError Text × Session (Catalog F)
  unfolding parse_id
  update_payment_link merchant_id raw r s =
      let id = trim_space raw in
      on_ok (update_request merchant_id raw r) s (λ (merchant, metadata).
        let affected = count (is_link merchant id) s.db.links in
        let (done, s1) = pool_exec (update_links (edit_link r metadata) merchant id) s in
        on_ok (updated done affected) s1 (λ u. (ok id, s1)))
