-- ===== src/Payout/Executor/Once.antt =====
-- What `ExecutePayout` of payout_executor.go hands to the node.
use mathlib.Core.Path.{subst}
use backend_go.Prelude.{
  ℕ, ◌≤◌, true, false, Option, none, some, List, [], ◌∷◌, ◌++◌, Text, trim_space, to_lower, ltb,
  ◌≡◌, ◌≢◌, ◌⊎◌, inl, inr, refl, sym, ap, ◌∙◌, arith, Bool-cases, if◌then◌else◌, Result, ok, err,
  of_option, bind-ok, require-ok, of_option-ok, ok-ok,
}
use backend_go.Float.{Float64}
use backend_go.Store.{WalletType}
use backend_go.Payment.Link.{is_blank}
use backend_go.Payout.Amount
use backend_go.Payout.Amount.{decimal_to_base_units, strip_hex_prefix}
use backend_go.Payout.Scheduler.{Request}
use backend_go.Payout.Executor.{
  Bytes, legacy, SendAnswer, accepted, failed, failed_after_taking, Transaction, Node, Ethereum,
  Executor, ExecError, bad_key, no_nonce, no_gas_price, no_gas, no_chain_id, not_signed, not_sent,
  bad_token, no_hot_wallet, bad_factory, bad_salt, not_packed, Prepared, of_parsed,
  erc20_transfer_data, decode_bytes32, erc20_decimals, token_of, payment, or_zero_address,
  hot_wallet_fee, eoa_transaction, create2_transaction, send_prepared, execute_with, execute_payout,
  apply_gas_buffer,
}

of_parsed-ok : (p : Amount.Parsed) (n : ℕ) → of_parsed p ≡ ok n → p ≡ Amount.ok n
of_parsed-ok (Amount.ok m) n h = ap Amount.ok (ok-ok m n h)
of_parsed-ok (Amount.err e) n h = cc

WalletType-cases : (w : WalletType) → (w ≡ WalletType.eoa) ⊎ (w ≡ WalletType.create2)
WalletType-cases WalletType.eoa = inl refl
WalletType-cases WalletType.create2 = inr refl

SendAnswer-cases : (a : SendAnswer) → (a ≡ accepted) ⊎ ((a ≡ failed) ⊎ (a ≡ failed_after_taking))
SendAnswer-cases accepted = inl refl
SendAnswer-cases failed = inr (inl refl)
SendAnswer-cases failed_after_taking = inr (inr refl)

floor_21000 : (gas : ℕ) → 21_000 ≤ (if ltb gas 21_000 then 21_000 else gas)
floor_21000 gas = ground arith

module _ {F K : Type 0} (eth : Ethereum K) (x : Executor F K) where
  -- the request's amount, in the units of what is paid
  abbrev pub IsAmount : Request → ℕ → ℕ → Type 0
  IsAmount r decimals amount =
      decimal_to_base_units (x.amount_raw r.amount) decimals ≡ Amount.ok amount

  -- the coin is sent as the value, a token by a call of `transfer`
  abbrev pub PaysFromDeposit : Node → Request → Transaction → Type 0
  PaysFromDeposit node r tx =
      let settlement = eth.hex_to_address r.settlement_address in
      let address = trim_space r.token_address in
      (amount : ℕ) × (((is_blank address ≡ true)
          × IsAmount r 18 amount
          × (tx.recipient ≡ settlement)
          × (tx.value ≡ amount)
          × (tx.call_data ≡ []))
        ⊎ ((is_blank address ≡ false)
            × (decimals : ℕ) × (erc20_decimals eth node (eth.hex_to_address address) ≡ ok decimals)
            × IsAmount r decimals amount
            × (tx.recipient ≡ eth.hex_to_address address)
            × (tx.value ≡ 0)
            × (tx.call_data ≡ erc20_transfer_data eth settlement amount)))
      × (21_000 ≤ tx.gas)

  -- a sweep of the deposit contract to the settlement address
  abbrev pub Sweeps : Node → Request → Transaction → Type 0
  Sweeps node r tx =
      (amount : ℕ) × (decimals : ℕ) × (token : Option ℕ) × (salt : Bytes) × (token_of eth node
          r.token_address
        ≡ ok (token, decimals))
      × IsAmount r decimals amount
      × (decode_bytes32 eth r.wallet_salt ≡ some salt)
      × (eth.pack_sweep salt (or_zero_address eth token) (eth.hex_to_address r.settlement_address)
            amount
          ≡ some tx.call_data)
      × (tx.recipient ≡ eth.hex_to_address r.factory_address)
      × (tx.value ≡ 0)

  abbrev pub Pays : Node → Request → Transaction → Type 0
  Pays node r tx = elim r.wallet_type [
    | WalletType.eoa ↦ PaysFromDeposit node r tx
    | WalletType.create2 ↦ Sweeps node r tx
  ]

  token_of_lem :
      (node : Node) (address : Text) (token : Option ℕ) (decimals : ℕ)
      → token_of eth node address ≡ ok (token, decimals)
      → ((is_blank address ≡ true) × (token ≡ none) × (decimals ≡ 18))
        ⊎ ((is_blank address ≡ false)
            × (token ≡ some (eth.hex_to_address address))
            × (erc20_decimals eth node (eth.hex_to_address address) ≡ ok decimals))
  unfolding token_of
  token_of_lem node address token decimals h = elim (Bool-cases (is_blank address)) [
    | inl e ↦
        let q = ok-ok _ _ (rw e at h) in
        inl (e, ap (λ (p : Option ℕ × ℕ). p.0) (sym q), ap (λ (p : Option ℕ × ℕ). p.1) (sym q))
    | inr e ↦
        let (u, h1) = require-ok (eth.is_hex_address address) bad_token _ _ (rw e at h) in
        let (d, e2, h2) = bind-ok (erc20_decimals eth node (eth.hex_to_address address)) _ _ h1 in
        let q = ok-ok _ _ h2 in
        inr
          (e, ap (λ (p : Option ℕ × ℕ). p.0) (sym q), e2 ∙ ap ok (ap (λ (p : Option ℕ × ℕ). p.1) q))
  ]

  abbrev legacy_transaction : Option ℕ → Request → ℕ → ℕ → ℕ → ℕ → Transaction
  legacy_transaction token r amount nonce price gas =
      let pay = payment eth token (eth.hex_to_address r.settlement_address) amount in
      record {
        nonce = nonce;
        recipient = pay.0;
        value = pay.1;
        gas = if ltb gas 21_000 then 21_000 else gas;
        fee = legacy price;
        call_data = pay.2;
      }

  legacy_transaction-Pays :
      (node : Node) (r : Request) (token : Option ℕ) (decimals amount nonce price gas : ℕ)
      → (((is_blank (trim_space r.token_address) ≡ true) × (token ≡ none) × (decimals ≡ 18))
          ⊎ ((is_blank (trim_space r.token_address) ≡ false)
              × (token ≡ some (eth.hex_to_address (trim_space r.token_address)))
              × (erc20_decimals eth node (eth.hex_to_address (trim_space r.token_address))
                  ≡ ok decimals)))
      → IsAmount r decimals amount
      → PaysFromDeposit node r (legacy_transaction token r amount nonce price gas)
  unfolding payment
  legacy_transaction-Pays node r token decimals amount nonce price gas (inl (blank, t, d)) a =
      rw t (
        amount,
        inl (blank, subst (λ (n : ℕ). IsAmount r n amount) d a, refl, refl, refl),
        floor_21000 gas,
      )
  legacy_transaction-Pays node r token decimals amount nonce price gas (inr (named, t, d)) a =
      rw t (amount, inr (named, decimals, d, a, refl, refl, refl), floor_21000 gas)

  eoa_transaction-Pays :
      (node : Node) (r : Request) (p : Prepared)
      → eoa_transaction eth x node r ≡ ok p
      → PaysFromDeposit node r p.transaction
  unfolding eoa_transaction
  eoa_transaction-Pays node r p h =
      let (key, e1, h1) =
        bind-ok (of_option bad_key (eth.hex_to_ecdsa (strip_hex_prefix r.private_key))) _ p h in
      let ((token, decimals), e2, h2) =
        bind-ok (token_of eth node (trim_space r.token_address)) _ p h1 in
      let (amount, e3, h3) =
        bind-ok (of_parsed (decimal_to_base_units (x.amount_raw r.amount) decimals)) _ p h2 in
      let pay = payment eth token (eth.hex_to_address r.settlement_address) amount in
      let (nonce, e4, h4) =
        bind-ok (of_option no_nonce (node.pending_nonce (eth.address_of key))) _ p h3 in
      let (price, e5, h5) = bind-ok (of_option no_gas_price node.suggest_gas_price) _ p h4 in
      let (gas, e6, h6) =
        bind-ok
          (of_option no_gas (
            node.estimate_gas (record {
              sender = eth.address_of key;
              recipient = pay.0;
              value = pay.1;
              call_data = pay.2;
            })))
          _ p h5 in
      let (chain_id, e7, h7) = bind-ok (of_option no_chain_id node.chain_id) _ p h6 in
      let (hash, e8, h8) =
        bind-ok
          (of_option not_signed
            (eth.sign chain_id key (legacy_transaction token r amount nonce price gas)))
          _ p h7 in
      subst (PaysFromDeposit node r) (ap (λ (y : Prepared). y.transaction) (ok-ok _ _ h8)) (
        legacy_transaction-Pays node r token decimals amount nonce price gas
          (token_of_lem node (trim_space r.token_address) token decimals e2) (of_parsed-ok _ _ e3))

  create2_transaction-Sweeps :
      (fl : Float64 F) (of_nat : ℕ → F) (ceil : F → ℕ) (node : Node) (r : Request) (p : Prepared)
      → create2_transaction eth x fl of_nat ceil node r ≡ ok p
      → Sweeps node r p.transaction
  unfolding create2_transaction
  create2_transaction-Sweeps fl of_nat ceil node r p h =
      let settlement = eth.hex_to_address r.settlement_address in
      let (key, e1, h1) = bind-ok (of_option no_hot_wallet x.hot_wallet_key) _ p h in
      let (u, h2) = require-ok (eth.is_hex_address r.factory_address) bad_factory _ p h1 in
      let (salt, e3, h3) = bind-ok (of_option bad_salt (decode_bytes32 eth r.wallet_salt)) _ p h2 in
      let ((token, decimals), e4, h4) = bind-ok (token_of eth node r.token_address) _ p h3 in
      let (amount, e5, h5) =
        bind-ok (of_parsed (decimal_to_base_units (x.amount_raw r.amount) decimals)) _ p h4 in
      let (call_data, e6, h6) =
        bind-ok
          (of_option not_packed (eth.pack_sweep salt (or_zero_address eth token) settlement amount))
          _ p h5 in
      let from = eth.address_of key in
      let factory = eth.hex_to_address r.factory_address in
      let (nonce, e7, h7) = bind-ok (of_option no_nonce (node.pending_nonce from)) _ p h6 in
      let (gas, e8, h8) =
        bind-ok
          (of_option no_gas (
            node.estimate_gas
              (record { sender = from; recipient = factory; value = 0; call_data = call_data })))
          _ p h7 in
      let (chain_id, e9, h9) = bind-ok (of_option no_chain_id node.chain_id) _ p h8 in
      let (fee, e10, h10) = bind-ok (hot_wallet_fee eth x node) _ p h9 in
      let tx : Transaction = record {
        nonce = nonce;
        recipient = factory;
        value = 0;
        gas = apply_gas_buffer fl of_nat ceil gas x.gas_buffer_percent;
        fee = fee;
        call_data = call_data;
      } in
      let (hash, e11, h11) = bind-ok (of_option not_signed (eth.sign chain_id key tx)) _ p h10 in
      subst (Sweeps node r) (ap (λ (y : Prepared). y.transaction) (ok-ok _ _ h11)) (
        amount,
        decimals,
        token,
        salt,
        e4,
        of_parsed-ok _ _ e5,
        of_option-ok _ _ _ e3,
        of_option-ok _ _ _ e6,
        refl,
        refl,
      )

  abbrev pub Sent : Request → List Transaction → Result ExecError Text × List Transaction → Type 0
  Sent r given (ok hash, after) =
      (node : Node) × (x.clients (to_lower (trim_space r.chain)) ≡ some node)
      × (tx : Transaction) × Pays node r tx
      × (node.send tx ≡ accepted)
      × (after ≡ given ++ tx ∷ [])
  Sent r given (err e, after) =
      (after ≡ given)
      ⊎ ((e ≡ not_sent)
          × (node : Node) × (x.clients (to_lower (trim_space r.chain)) ≡ some node)
          × (tx : Transaction) × Pays node r tx
          × (node.send tx ≢ accepted)
          × (after ≡ given ++ tx ∷ []))

  send_prepared-Sent :
      (node : Node) (m : Result ExecError Prepared) (r : Request) (given : List Transaction)
      → x.clients (to_lower (trim_space r.chain)) ≡ some node
      → ((p : Prepared) → m ≡ ok p → Pays node r p.transaction)
      → Sent r given (send_prepared eth x node m given)
  unfolding send_prepared
  send_prepared-Sent node (err e) r given c h = inl refl
  send_prepared-Sent node (ok p) r given c h = elim (SendAnswer-cases (node.send p.transaction)) [
    | inl e ↦ rw e (node, c, p.transaction, h p refl, e, refl)
    | inr (inl e) ↦ rw e (inr (refl, node, c, p.transaction, h p refl, (λ a. cc), refl))
    | inr (inr e) ↦ rw e (inr (refl, node, c, p.transaction, h p refl, (λ a. cc), refl))
  ]

  prepared-Pays :
      (fl : Float64 F) (of_nat : ℕ → F) (ceil : F → ℕ) (node : Node) (r : Request) (p : Prepared)
      → (elim r.wallet_type as (λ w. Result ExecError Prepared) [
        | WalletType.eoa ↦ eoa_transaction eth x node r
        | WalletType.create2 ↦ create2_transaction eth x fl of_nat ceil node r
      ])
        ≡ ok p
      → Pays node r p.transaction
  prepared-Pays fl of_nat ceil node r p h = elim (WalletType-cases r.wallet_type) [
    | inl e ↦ rw e (eoa_transaction-Pays node r p (rw e at h))
    | inr e ↦ rw e (create2_transaction-Sweeps fl of_nat ceil node r p (rw e at h))
  ]

  execute_with-Sent :
      (fl : Float64 F) (of_nat : ℕ → F) (ceil : F → ℕ) (client : Option Node) (r : Request)
      (given : List Transaction)
      → x.clients (to_lower (trim_space r.chain)) ≡ client
      → Sent r given (execute_with eth x fl of_nat ceil client r given)
  unfolding execute_with
  execute_with-Sent fl of_nat ceil none r given e = inl refl
  execute_with-Sent fl of_nat ceil (some node) r given e =
      elim (Bool-cases (eth.is_hex_address r.settlement_address)) [
        | inr b ↦ rw b (inl refl)
        | inl b ↦ rw b (send_prepared-Sent node _ r given e (prepared-Pays fl of_nat ceil node r))
      ]

  -- However the node answers: when `execute_payout` gives a hash, exactly one transaction has been
  -- handed to the node of the request's chain, SendTransaction has accepted it, and it pays the
  -- request's amount, in the units of its token, to the settlement address. When it gives an error,
  -- then none has been handed over, or the error is that of SendTransaction: exactly one such
  -- transaction has been, and the node may have taken it even so.
  pub execute_payout-Sent :
      (fl : Float64 F) (of_nat : ℕ → F) (ceil : F → ℕ) (r : Request) (given : List Transaction)
      → Sent r given (execute_payout eth x fl of_nat ceil r given)
  unfolding execute_payout
  execute_payout-Sent fl of_nat ceil r given =
      execute_with-Sent fl of_nat ceil (x.clients (to_lower (trim_space r.chain))) r given refl
