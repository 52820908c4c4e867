-- ===== src/Checkout/Quote.antt =====
-- `tokenAllowed`, `settlementAmountForToken` and the price sources of
-- internal/services/checkoutsvc/service.go. The price services are parameters, none for an error.
use mathlib.Core.Path.{subst}
use backend_go.Prelude.{
  Bool, true, false, not, ◌||◌, Option, none, some, List, [], ◌∷◌, ◌++◌, Text, codes, text_eq,
  trim_space, to_lower, to_upper, all, any, ap, sym, ◌∙◌, ◌↔◌, text_eq→eq, ◌≡◌, ◌⊎◌, refl, inl, inr,
  arith, Bool-cases, if◌then◌else◌,
}
use backend_go.Float.{Float64}
use backend_go.Payment.Link.{is_blank}

pub record AllowedToken : Type 0 where
  pub chain : Text
  pub symbol : Text
  pub address : Text

unfoldable pub token_in_list : List AllowedToken → Text → Text → Text → Bool
token_in_list [] chain symbol address = false
token_in_list (t ∷ allowed) chain symbol address =
    let rest = token_in_list allowed chain symbol address in
    if not (text_eq (to_lower (trim_space t.chain)) chain)
    then rest
    else if not (text_eq (to_upper (trim_space t.symbol)) symbol)
    then rest
    else if is_blank t.address || text_eq address []
    then true
    else if text_eq (to_lower (trim_space t.address)) address
    then true
    else rest

unfoldable pub token_allowed : List AllowedToken → Text → Text → Text → Bool
token_allowed [] chain_name symbol address = true
token_allowed (t ∷ allowed) chain_name symbol address =
    token_in_list (t ∷ allowed) (to_lower (trim_space chain_name)) (to_upper (trim_space symbol))
      (to_lower (trim_space address))

unfoldable pub is_usd_stable_token : Text → Bool
is_usd_stable_token raw =
    let symbol = to_upper (trim_space raw) in
    text_eq symbol (codes "USDC")
    || (text_eq symbol (codes "USDT")
        || (text_eq symbol (codes "USDT0") || text_eq symbol (codes "DAI")))

pub record Quotes (F : Type 0) : Type 0 where
  pub hyperliquid : Text → Option F
  pub bybit : Text → Text → Text → Option F
  pub binance : Text → Text → Option F

-- the map from a symbol to its pair
unfoldable pub binance_pair : Text → Option Text
binance_pair symbol =
    if text_eq symbol (codes "ETH")
    then some (codes "ETHUSDT")
    else if text_eq symbol (codes "BNB")
    then some (codes "BNBUSDT")
    else if text_eq symbol (codes "POL")
    then some (codes "POLUSDT")
    else if text_eq symbol (codes "MATIC")
    then some (codes "MATICUSDT")
    else if text_eq symbol (codes "OP")
    then some (codes "OPUSDT")
    else if text_eq symbol (codes "ARB")
    then some (codes "ARBUSDT")
    else none

-- the symbols of the map's keys
abbrev pub has_pair : Text → Bool
has_pair symbol = any (text_eq symbol) (
    codes "ETH"
    ∷ (codes "BNB" ∷ (codes "POL" ∷ (codes "MATIC" ∷ (codes "OP" ∷ (codes "ARB" ∷ []))))))

binance_pair_lem :
    (symbol : Text)
    → ((binance_pair symbol ≡ some (symbol ++ codes "USDT")) × (has_pair symbol ≡ true))
      ⊎ ((binance_pair symbol ≡ none) × (has_pair symbol ≡ false))
unfolding binance_pair
binance_pair_lem symbol =
    let P : Text → Type 0 = λ t.
      ((binance_pair t ≡ some (t ++ codes "USDT")) × (has_pair t ≡ true))
      ⊎ ((binance_pair t ≡ none) × (has_pair t ≡ false)) in
    let known : (t : Text) → text_eq symbol t ≡ true → P t → P symbol =
      λ t e p. subst P (sym (text_eq→eq symbol t e)) p in
    elim (Bool-cases (text_eq symbol (codes "ETH"))) [
      | inl e ↦ known (codes "ETH") e (inl (refl, refl))
      | inr e1 ↦ elim (Bool-cases (text_eq symbol (codes "BNB"))) [
        | inl e ↦ known (codes "BNB") e (inl (refl, refl))
        | inr e2 ↦ elim (Bool-cases (text_eq symbol (codes "POL"))) [
          | inl e ↦ known (codes "POL") e (inl (refl, refl))
          | inr e3 ↦ elim (Bool-cases (text_eq symbol (codes "MATIC"))) [
            | inl e ↦ known (codes "MATIC") e (inl (refl, refl))
            | inr e4 ↦ elim (Bool-cases (text_eq symbol (codes "OP"))) [
              | inl e ↦ known (codes "OP") e (inl (refl, refl))
              | inr e5 ↦ elim (Bool-cases (text_eq symbol (codes "ARB"))) [
                | inl e ↦ known (codes "ARB") e (inl (refl, refl))
                | inr e6 ↦ rw (e1, e2, e3, e4, e5, e6) (inr (refl, refl))
              ]
            ]
          ]
        ]
      ]
    ]

module _ {F : Type 0} (fl : Float64 F) (q : Quotes F) where
  open fl use {zero, lt, le, div}

  -- the answers of the sources, in their order
  unfoldable pub first_available_price : List (Option F) → Option F
  first_available_price [] = none
  first_available_price (none ∷ answers) = first_available_price answers
  first_available_price (some price ∷ answers) =
      let rest = first_available_price answers in if lt zero price then some price else rest

  abbrev pub sources : Text → List (Option F)
  sources symbol =
      let pair = symbol ++ codes "USDT" in
      q.hyperliquid symbol
      ∷ (q.bybit (codes "linear") pair symbol ∷ (q.bybit (codes "spot") pair symbol ∷ []))

  abbrev pub binance_price : Text → Option Text → Option F
  binance_price symbol none = none
  binance_price symbol (some pair) = q.binance pair symbol

  unfoldable pub token_usd_price : Text → Option F
  token_usd_price raw =
      let symbol = to_upper (trim_space raw) in
      if text_eq symbol (codes "HYPE")
      then first_available_price (sources symbol)
      else binance_price symbol (binance_pair symbol)

  abbrev pub quoted : F → Option F → Option F
  quoted fiat_amount none = none
  quoted fiat_amount (some price) = if le price zero then none else some (div fiat_amount price)

  unfoldable pub settlement_amount_for_token : F → Text → Text → Option F
  settlement_amount_for_token fiat_amount raw_currency raw_symbol =
      let currency = to_upper (trim_space raw_currency) in
      let symbol = to_upper (trim_space raw_symbol) in
      if le fiat_amount zero
      then none
      else if not (text_eq currency (codes "USD"))
      then none
      else if is_usd_stable_token symbol
      then some fiat_amount
      else quoted fiat_amount (token_usd_price symbol)

  abbrev pub is_useless : Option F → Bool
  is_useless none = true
  is_useless (some price) = not (lt zero price)

  -- the answer that is taken, behind answers that are of no use
  abbrev pub IsFirst : List (Option F) → F → Type 0
  IsFirst answers price =
      (before : List (Option F)) × (after : List (Option F)) × (answers
        ≡ before ++ some price ∷ after)
      × (all is_useless before ≡ true)
      × (lt zero price ≡ true)

  IsFirst-later :
      (answer : Option F) (answers : List (Option F)) (price : F)
      → is_useless answer ≡ true
      → IsFirst answers price
      → IsFirst (answer ∷ answers) price
  IsFirst-later answer answers price u (before, after, e, all_useless, positive) =
      (answer ∷ before, after, rw e refl, ground arith, positive)

  -- The price that is returned is positive and is the answer of a source; every source before it
  -- failed or gave a price that is not positive.
  pub first_available_price-IsFirst :
      (answers : List (Option F)) (price : F)
      → first_available_price answers ≡ some price
      → IsFirst answers price
  unfolding first_available_price
  first_available_price-IsFirst [] price h = cc
  first_available_price-IsFirst (none ∷ answers) price h =
      IsFirst-later none answers price refl (first_available_price-IsFirst answers price h)
  first_available_price-IsFirst (some p ∷ answers) price h = elim (Bool-cases (lt zero p)) [
    | inl e ↦
        let same : p ≡ price = ground arith in
        ([], answers, ap (λ a. some a ∷ answers) same, refl, rw same at e)
    | inr e ↦
        IsFirst-later (some p) answers price (ground arith)
          (first_available_price-IsFirst answers price (rw e at h))
  ]

  first_available_price-skip :
      (before after : List (Option F)) (price : F)
      → all is_useless before ≡ true
      → lt zero price ≡ true
      → first_available_price (before ++ some price ∷ after) ≡ some price
  unfolding first_available_price
  first_available_price-skip [] after price u positive = rw positive refl
  first_available_price-skip (none ∷ before) after price u positive =
      first_available_price-skip before after price u positive
  first_available_price-skip (some p ∷ before) after price u positive =
      let useless : lt zero p ≡ false = ground arith in
      rw useless (first_available_price-skip before after price (ground arith) positive)

  -- the price of a token: for HYPE the first useful answer of its sources, for the tokens of
  -- `has_pair` what Binance answers for the symbol with USDT behind it
  abbrev pub IsGiven : Text → F → Type 0
  IsGiven symbol price =
      ((text_eq symbol (codes "HYPE") ≡ true) × IsFirst (sources symbol) price)
      ⊎ ((text_eq symbol (codes "HYPE") ≡ false)
          × (has_pair symbol ≡ true)
          × (q.binance (symbol ++ codes "USDT") symbol ≡ some price))

  -- when an amount is quoted
  abbrev pub Quoted : F → Text → Text → F → Type 0
  Quoted fiat_amount currency symbol amount =
      (le fiat_amount zero ≡ false)
      × (text_eq (to_upper (trim_space currency)) (codes "USD") ≡ true)
      × (((is_usd_stable_token (to_upper (trim_space symbol)) ≡ true) × (amount ≡ fiat_amount))
          ⊎ ((is_usd_stable_token (to_upper (trim_space symbol)) ≡ false)
              × (price : F) × IsGiven (to_upper (trim_space (to_upper (trim_space symbol)))) price
              × (le price zero ≡ false)
              × (amount ≡ div fiat_amount price)))

  quoted_lem :
      (fiat_amount amount : F) (o : Option F)
      → quoted fiat_amount o ≡ some amount
      → (price : F) × (o ≡ some price) × (le price zero ≡ false) × (amount ≡ div fiat_amount price)
  quoted_lem fiat_amount amount none h = cc
  quoted_lem fiat_amount amount (some price) h = (price, refl, ground arith, ground arith)

  token_usd_price_lem :
      (raw : Text) (price : F)
      → (token_usd_price raw ≡ some price) ↔ IsGiven (to_upper (trim_space raw)) price
  unfolding token_usd_price
  token_usd_price_lem raw price =
      let symbol = to_upper (trim_space raw) in
      elim (Bool-cases (text_eq symbol (codes "HYPE"))) [
        | inl hype ↦
            let here : token_usd_price raw ≡ first_available_price (sources symbol) =
              rw hype refl in
            (
              (λ h.
                  inl (hype, first_available_price-IsFirst (sources symbol) price (sym here ∙ h))),
              λ g. elim g [
                | inl (e, (before, after, split, u, positive)) ↦
                    here
                    ∙ ap first_available_price split
                    ∙ first_available_price-skip before after price u positive
                | inr (e, k, h) ↦ cc
              ],
            )
        | inr other ↦
            let here : token_usd_price raw ≡ binance_price symbol (binance_pair symbol) =
              rw other refl in
            elim (binance_pair_lem symbol) [
              | inl (pair, known) ↦
                  let there = here ∙ ap (binance_price symbol) pair in
                  (
                    (λ h. inr (other, known, sym there ∙ h)),
                    λ g. elim g [ inl (e, more) ↦ cc | inr (e, k, h) ↦ there ∙ h ],
                  )
              | inr (no_pair, unknown) ↦
                  let there = here ∙ ap (binance_price symbol) no_pair in
                  (
                    (λ h. let bad : none ≡ some price = sym there ∙ h in cc),
                    λ g. elim g [ inl (e, more) ↦ cc | inr (e, k, h) ↦ cc ],
                  )
            ]
      ]

  -- An amount is quoted exactly when it was asked for a positive amount in US dollars, and, for a
  -- stable token, is that amount, or, for another, is that amount divided by a positive price. The
  -- price of HYPE is the first positive answer of Hyperliquid, Bybit's futures and Bybit's spot
  -- market; that of ETH, BNB, POL, MATIC, OP and ARB is Binance's answer for the symbol with USDT
  -- behind it; no other token has one.
  pub settlement_amount_for_token-Quoted :
      (fiat_amount amount : F) (currency symbol : Text)
      → (settlement_amount_for_token fiat_amount currency symbol ≡ some amount)
        ↔ Quoted fiat_amount currency symbol amount
  unfolding settlement_amount_for_token
  settlement_amount_for_token-Quoted fiat_amount amount currency symbol = (
    λ h. (
      ground arith,
      ground arith,
      elim (Bool-cases (is_usd_stable_token (to_upper (trim_space symbol)))) [
        | inl stable ↦ inl (stable, ground arith)
        | inr other ↦
            let answer : quoted fiat_amount (token_usd_price (to_upper (trim_space symbol)))
                ≡ some amount =
              ground arith in
            let (price, given, positive, same) = quoted_lem fiat_amount amount _ answer in
            inr (
              other,
              price,
              (token_usd_price_lem (to_upper (trim_space symbol)) price).0 given,
              positive,
              same,
            )
      ],
    ),
    λ (positive, usd, rest).
        rw (positive, usd)
          (elim rest [
            | inl (stable, same) ↦ rw stable (ap some (sym same))
            | inr (other, price, given, useful, same) ↦
                let answer = (token_usd_price_lem (to_upper (trim_space symbol)) price).1 given in
                rw (other, answer, useful) (ap some (sym same))
          ]),
  )
