-- ===== src/Links/Examples.antt =====
-- Tests of the payment links, and the theorems at concrete inputs.
use backend_go.Prelude.{
  ℕ, true, false, Option, none, some, [], ◌∷◌, List, Text, codes, trim_space, length, all, ◌≡◌,
  refl, err,
}
use backend_go.Float.{fixed_point}
use backend_go.Ids
use backend_go.Payment.Link.{
  validate_link_input, check_amounts, check_after_payment, min_above, LinkError,
}
use backend_go.Database.{open_session, pool_exec, begin, exec, commit, rollback}
use backend_go.Database.Transaction.{transact, exec_all}
use backend_go.Links.{
  UpdateLinkRequest, update_payment_link, CollectOptions, CreateLinkRequest, PaymentLink, Catalog,
  LinkSetup, invalid, LinkStatus, new_link_code, parse_id, plan_link, find_product, new_link,
  create_payment_link, archive_payment_link,
}
use backend_go.Links.Accepted.{Outcome, new_link_code_lem, create_payment_link-Outcome}

abbrev nothing : CollectOptions
nothing = record {
  email = false;
  name = false;
  phone = false;
  address = false;
  business_name = false;
  terms = false;
  promo_codes = false;
  tax = false;
  invoice_pdf = false;
}

abbrev request : CreateLinkRequest ℕ
request = record {
  merchant_id = codes "01ARZ3NDEKTSV4RRFFQ69G5FAV";
  product_id = [];
  title = codes "T";
  description = [];
  image_url = [];
  pricing_mode = [];
  amount = some 500_000_000;
  currency = [];
  reusable = none;
  max_payments = none;
  expires_at = [];
  cta_text = [];
  after_payment = none;
  adjust_percent = none;
  min_amount = none;
  max_amount = none;
  allowed_tokens = 1;
  allowed_tokens_json = codes "[{}]";
  customer_fields_json = codes "[]";
  custom_fields_json = codes "[]";
  metadata_json = [];
  collect = nothing;
  options_metadata_json = [];
}

abbrev setup : LinkSetup
setup = record {
  row_id = λ id. 1;
  id_text = λ id. codes "i";
  json_valid = λ raw. true;
  parse_time = λ raw. none;
  parse_request_uri = λ raw. true;
  random = some (0 ∷ (10 ∷ (63 ∷ [])));
  now = 50;
}

abbrev no_links : Catalog ℕ
no_links = record { links = []; options = []; products = []; outbox = [] }

abbrev modes : List (PaymentLink ℕ) → List Text
modes [] = []
modes (l ∷ links) = l.pricing_mode ∷ (l.code ∷ modes links)

-- a price makes the link a fixed one
defaults :
    modes (create_payment_link fixed_point setup request (open_session no_links)).1.db.links
    ≡ codes "fixed" ∷ (codes "0AZ" ∷ [])
unfolding create_payment_link plan_link parse_id find_product new_link new_link_code
    validate_link_input check_amounts check_after_payment min_above transact exec_all begin exec
    commit rollback trim_space Ids.parse Ids.is_valid Ids.is_crockford
defaults = refl

untitled :
    (create_payment_link fixed_point setup
      (record request { title = codes " " })
      (open_session no_links)).0
    ≡ err (invalid LinkError.title_required)
unfolding create_payment_link plan_link parse_id validate_link_input trim_space Ids.parse
    Ids.is_valid Ids.is_crockford
untitled = refl

abbrev statuses : List (PaymentLink ℕ) → List LinkStatus
statuses [] = []
statuses (l ∷ links) = l.status ∷ statuses links

by_code :
    statuses
      (archive_payment_link fixed_point setup request.merchant_id
        (codes "0AZ ")
        (create_payment_link fixed_point setup request (open_session no_links)).1).1.db.links
    ≡ LinkStatus.archived ∷ []
unfolding archive_payment_link create_payment_link plan_link parse_id find_product new_link
    new_link_code validate_link_input check_amounts check_after_payment min_above transact exec_all
    begin exec commit rollback pool_exec trim_space Ids.parse Ids.is_valid Ids.is_crockford
by_code = refl

-- an update may leave a fixed link without an amount
abbrev priced : List (PaymentLink ℕ) → List (Option ℕ)
priced [] = []
priced (l ∷ links) = l.amount ∷ priced links

abbrev no_amount : UpdateLinkRequest ℕ
no_amount = record {
  title = codes "T";
  pricing_mode = [];
  amount = none;
  currency = [];
  metadata_json = [];
  update_allowed_tokens = false;
  allowed_tokens_json = [];
}

unpriced :
    priced
      (update_payment_link fixed_point setup request.merchant_id
        (codes "0AZ")
        no_amount
        (create_payment_link fixed_point setup request (open_session no_links)).1).1.db.links
    ≡ none ∷ []
unfolding update_payment_link create_payment_link plan_link parse_id find_product new_link
    new_link_code validate_link_input check_amounts check_after_payment min_above transact exec_all
    begin exec commit rollback pool_exec trim_space Ids.parse Ids.is_valid Ids.is_crockford
unpriced = refl

create_payment_link-Outcome_example :
    Outcome fixed_point setup request no_links
      (create_payment_link fixed_point setup request (open_session no_links))
create_payment_link-Outcome_example =
    create_payment_link-Outcome fixed_point setup request (open_session no_links)

new_link_code_example :
    (length (new_link_code (0 ∷ (10 ∷ (63 ∷ [])))) ≡ 3)
    × (all Ids.is_crockford (new_link_code (0 ∷ (10 ∷ (63 ∷ [])))) ≡ true)
new_link_code_example = new_link_code_lem (0 ∷ (10 ∷ (63 ∷ [])))
