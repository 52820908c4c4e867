-- ===== src/Links/Accepted.antt =====
-- What a created payment link is (internal/services/paymentlinksvc/service.go).
use backend_go.Checkout.Create.{normalize_json}
use mathlib.Core.Path.{subst}
use backend_go.Prelude.{
  ℕ, suc, ◌%◌, ◌<◌, ◌&&◌, ◌==◌, true, false, Option, none, some, List, [], ◌∷◌, ◌++◌, Text,
  trim_space, any, ◌⊎◌, Option-cases, on_ok-ok, of_option-ok, require-ok, codes, length, all,
  get_elem?, ◌≡◌, refl, sym, ap, ◌∙◌, arith, passes_below, passes_below_lem, Bool-cases, inl, inr,
  Result, ok, err, of_option, bind-ok, ok-ok, on_ok-cases, on_ok-state,
}
use backend_go.Float.{Float64}
use backend_go.Ids
use backend_go.Payment.Link.{
  LinkError, IsAccepted, validate_link_input, validate_link_input-none, is_blank,
}
use backend_go.Database.{Session, pool_query}
use backend_go.Database.Laws.{db-pool_query}
use backend_go.Database.Transaction.{
  TxResult, committed, not_begun, not_committed, statement_failed, is_committed, transact,
  transact_lem, apply_all,
}
use backend_go.Links.{
  CreateLinkRequest, Catalog, LinkSetup, CreateLinkError, bad_merchant_id, code_failed,
  bad_product_id, bad_expires_at, lookup_failed, product_not_found, Product, alphabet, letter,
  new_link_code, optional_time, accept, LinkPlan, link_input, parse_id, plan_link, find_product,
  link_statements, tx_error, write_link, create_payment_link,
}

-- every letter of a code is one that ids use
letter-is_crockford : (n : ℕ) → n < 32 → Ids.is_crockford (letter (get_elem? alphabet n)) ≡ true
unfolding passes_below Ids.is_crockford
letter-is_crockford n below =
    passes_below_lem (λ i. Ids.is_crockford (letter (get_elem? alphabet i))) 32 n below refl

-- A link's code has one letter for each random byte, and all are letters of the alphabet of ids.
pub new_link_code_lem :
    (buf : List ℕ)
    → (length (new_link_code buf) ≡ length buf) × (all Ids.is_crockford (new_link_code buf) ≡ true)
unfolding new_link_code
new_link_code_lem [] = (refl, refl)
new_link_code_lem (b ∷ buf) =
    let (same, letters) = new_link_code_lem buf in
    (ap suc same, rw (letter-is_crockford (b % 32) (omega arith)) letters)

accept-ok : (e : Option LinkError) (u : Unit {0}) → accept e ≡ ok u → e ≡ none
accept-ok none u h = refl
accept-ok (some e) u h = cc

-- an optional time: none for a blank text, else what the text parses to
abbrev pub IsTime : (Text → Option ℕ) → Text → Option ℕ → Type 0
IsTime parse raw o =
    ((is_blank raw ≡ true) × (o ≡ none))
    ⊎ ((is_blank raw ≡ false) × (t : ℕ) × (parse (trim_space raw) ≡ some t) × (o ≡ some t))

optional_time-ok :
    (parse : Text → Option ℕ) (raw : Text) (o : Option ℕ)
    → optional_time parse raw ≡ ok o
    → IsTime parse raw o
optional_time-ok parse raw o h = elim (Bool-cases (is_blank raw)) [
  | inl e ↦ inl (e, sym (ok-ok _ _ (rw e at h)))
  | inr e ↦ elim (Option-cases (parse (trim_space raw))) [
    | inl failed ↦
        let bad : ◌≡◌ {A = Result CreateLinkError (Option ℕ)} (err bad_expires_at) (ok o) =
          rw (e, failed) at h in
        cc
    | inr (t, q) ↦ inr (e, t, q, sym (ok-ok _ _ (rw (e, q) at h)))
  ]
]

-- a product of a merchant is among the rows
abbrev pub HasProduct : ℕ → ℕ → List Product → Type 0
HasProduct id merchant rows =
    (row : Product) × (before : List Product) × (after : List Product) × (rows
      ≡ before ++ row ∷ after)
    × (row.id ≡ id)
    × (row.merchant ≡ merchant)

HasProduct-any :
    (id merchant : ℕ) (rows : List Product)
    → any (λ (p : Product). p.id == id && p.merchant == merchant) rows ≡ true
    → HasProduct id merchant rows
HasProduct-any id merchant [] h = cc
HasProduct-any id merchant (p ∷ rows) h = elim (Bool-cases (p.id == id && p.merchant == merchant)) [
  | inl e ↦ (p, [], rows, refl, ground arith, ground arith)
  | inr e ↦
      let (row, before, after, split, same, owner) = HasProduct-any id merchant rows (rw e at h) in
      (row, p ∷ before, after, ap (λ l. p ∷ l) split, same, owner)
]

module _ {F : Type 0} (fl : Float64 F) (c : LinkSetup) where
  -- an id that is read from a text
  abbrev pub IsId : Text → ℕ → Type 0
  IsId raw n = (id : Text) × (Ids.parse (trim_space raw) ≡ some id) × (n ≡ c.row_id id)

  -- no product for a blank text, else one that the merchant has
  abbrev pub IsProduct : ℕ → Text → List Product → Option ℕ → Type 0
  IsProduct merchant raw rows product =
      ((is_blank raw ≡ true) × (product ≡ none))
      ⊎ ((is_blank raw ≡ false)
          × (id : ℕ) × IsId raw id
          × HasProduct id merchant rows
          × (product ≡ some id))

  -- every part of a plan, from the request and the random bytes
  abbrev pub IsPlan : CreateLinkRequest F → LinkPlan F → Type 0
  IsPlan r p =
      IsAccepted fl c.parse_request_uri c.now p.input
      × ((expires : Option ℕ) × IsTime c.parse_time r.expires_at expires
          × (p.input ≡ link_input fl c r expires))
      × IsId r.merchant_id p.merchant
      × ((buf : List ℕ) × (c.random ≡ some buf) × (p.code ≡ new_link_code buf))
      × (normalize_json c.json_valid r.metadata_json (codes "{}") ≡ some p.metadata)
      × (normalize_json c.json_valid r.options_metadata_json (codes "{}") ≡ some p.options_metadata)

  abbrev pub Outcome :
      CreateLinkRequest F → Catalog F → Result CreateLinkError ℕ × Session (Catalog F) → Type 0
  Outcome r t (err e, s) = s.db ≡ t
  Outcome r t (ok id, s) =
      (p : LinkPlan F) × (product : Option ℕ) × IsPlan r p
      × IsProduct p.merchant r.product_id t.products product
      × (s.db ≡ apply_all (link_statements fl c id product r p) t)

  parse_id-ok : (raw : Text) (e : CreateLinkError) (n : ℕ) → parse_id fl c raw e ≡ ok n → IsId raw n
  unfolding parse_id
  parse_id-ok raw e n h = elim (Option-cases (Ids.parse (trim_space raw))) [
    | inl failed ↦
        let bad : ◌≡◌ {A = Result CreateLinkError ℕ} (err e) (ok n) = rw (failed, parse_id) at h in
        cc
    | inr (id, q) ↦ (id, q, sym (ok-ok _ _ (rw (q, parse_id) at h)))
  ]

  plan_link-IsPlan :
      (r : CreateLinkRequest F) (p : LinkPlan F) → plan_link fl c r ≡ ok p → IsPlan r p
  unfolding plan_link
  plan_link-IsPlan r p h =
      let (merchant, e1, h1) = bind-ok (parse_id fl c r.merchant_id bad_merchant_id) _ p h in
      let (expires, e2, h2) = bind-ok (optional_time c.parse_time r.expires_at) _ p h1 in
      let verdict = validate_link_input fl c.parse_request_uri c.now (link_input fl c r expires) in
      let (u, e3, h3) = bind-ok (accept verdict) _ p h2 in
      let (buf, e4, h4) = bind-ok (of_option code_failed c.random) _ p h3 in
      let (metadata, e5, h5) =
        bind-ok
          (of_option CreateLinkError.bad_metadata
            (normalize_json c.json_valid r.metadata_json (codes "{}")))
          _ p h4 in
      let (options, e6, h6) =
        bind-ok
          (of_option CreateLinkError.bad_options_metadata
            (normalize_json c.json_valid r.options_metadata_json (codes "{}")))
          _ p h5 in
      subst (IsPlan r) (ok-ok _ _ h6) (
        (validate_link_input-none fl c.parse_request_uri c.now (link_input fl c r expires)).0
            (accept-ok verdict u e3),
        (expires, optional_time-ok c.parse_time r.expires_at expires e2, refl),
        parse_id-ok r.merchant_id bad_merchant_id merchant e1,
        (buf, of_option-ok _ _ _ e4, refl),
        of_option-ok _ _ _ e5,
        of_option-ok _ _ _ e6,
      )

  find_product-IsProduct :
      (merchant : ℕ) (raw : Text) (s : Session (Catalog F)) (product : Option ℕ)
      → (find_product fl c merchant raw s).0 ≡ ok product
      → IsProduct merchant raw s.db.products product
  unfolding find_product
  find_product-IsProduct merchant raw s product h = elim (Bool-cases (is_blank raw)) [
    | inl e ↦ inl (e, sym (ok-ok _ _ (rw e at h)))
    | inr e ↦
        let (id, parsed, h1) =
          on_ok-ok (parse_id fl c raw bad_product_id) s _ product (rw e at h) in
        let (u, h2) = require-ok (pool_query s).0 lookup_failed _ product h1 in
        let (there, h3) =
          require-ok
            (any (λ (p : Product). p.id == id && p.merchant == merchant)
              (pool_query s).1.db.products)
            product_not_found _ product h2 in
        inr (
          e,
          id,
          parse_id-ok raw bad_product_id id parsed,
          HasProduct-any id merchant s.db.products (rw (db-pool_query s) at there),
          sym (ok-ok _ _ h3),
        )
  ]

  db-find_product :
      (merchant : ℕ) (raw : Text) (s : Session (Catalog F))
      → (find_product fl c merchant raw s).1.db ≡ s.db
  unfolding find_product
  db-find_product merchant raw s = elim (Bool-cases (is_blank raw)) [
    | inl e ↦ rw e refl
    | inr e ↦ rw e (
        on_ok-state (λ (x : Session (Catalog F)). x.db ≡ s.db) (parse_id fl c raw bad_product_id) s
          _ refl (λ id h. db-pool_query s))
  ]

  tx_error_lem :
      (x : TxResult) → is_committed x ≡ false → (e : CreateLinkError) × (tx_error fl c x ≡ err e)
  tx_error_lem committed h = cc
  tx_error_lem not_begun h = (_, refl)
  tx_error_lem not_committed h = (_, refl)
  tx_error_lem (statement_failed n) h = (_, refl)

  write_link-Outcome :
      (r : CreateLinkRequest F) (p : LinkPlan F) (id : ℕ) (product : Option ℕ) (t : Catalog F)
      (s : Session (Catalog F))
      → IsPlan r p
      → IsProduct p.merchant r.product_id t.products product
      → s.db ≡ t
      → Outcome r t (write_link fl c r p id product s)
  write_link-Outcome r p id product t s planned owned e =
      let fs = link_statements fl c id product r p in
      elim (transact_lem fs s) [
        | inl (done, after) ↦ rw done (p, product, planned, owned, after ∙ ap (apply_all fs) e)
        | inr (failed, same) ↦
            let (reason, q) = tx_error_lem (transact fs s).0 failed in rw q (same ∙ e)
      ]

  -- Whatever statements fail: when `create_payment_link` returns an error, the committed tables are as
  -- they were. When it returns an id, then its parts are those of the request: the merchant and the
  -- expiry are read from the texts, the code is made of the random bytes, the product is one that the
  -- merchant has, or none for a blank text, and the request with its defaults is a link that the
  -- rules accept. That link, its options and the event, and nothing else, have been added.
  pub create_payment_link-Outcome :
      (r : CreateLinkRequest F) (s : Session (Catalog F))
      → Outcome r s.db (create_payment_link fl c r s)
  unfolding create_payment_link
  create_payment_link-Outcome r s =
      on_ok-cases (Outcome r s.db) (plan_link fl c r) s _ (λ e. refl)
        (λ p planned.
          let s0 = record s { next_id = suc s.next_id } in
          let found = find_product fl c p.merchant r.product_id s0 in
          let same = db-find_product p.merchant r.product_id s0 in
          on_ok-cases (Outcome r s.db) found.0 found.1 _ (λ e. same)
            (λ product h.
              write_link-Outcome r p s.next_id product s.db found.1 (plan_link-IsPlan r p planned)
                (find_product-IsProduct p.merchant r.product_id s0 product h) same))
