-- ===== src/Payout/Executor.antt =====
-- `EVMPayoutExecutor` of internal/platform/workers/payout_executor.go. go-ethereum's keys,
-- addresses, hashes, ABI coding and signatures, and the node of a chain, are parameters; the node's
-- answers are those of one payout, none for an error. An address is its number.
pub mod Calldata
pub mod Once
mod Examples
use backend_go.Prelude.{
  ℕ, zero, suc, ◌+◌, ◌-◌, ◌*◌, ◌/◌, ◌%◌, ◌^◌, Bool, true, false, not, ◌&&◌, ◌||◌, Option, none,
  some, List, [], ◌∷◌, ◌++◌, Text, codes, trim_space, to_lower, length, replicate, ltb, leb, ◌==◌,
  if◌then◌else◌, Result, ok, err, ◌>>=◌, ◌>>◌, require, of_option,
}
use backend_go.Payment.Link.{is_blank}
use backend_go.Float.{Float64}
use backend_go.Store.{WalletType}
use backend_go.Payout.Amount.{decimal_to_base_units, strip_hex_prefix}
use backend_go.Payout.Amount
use backend_go.Payout.Scheduler.{Request}

abbrev pub Bytes : Type 0
Bytes = List ℕ

pub record CallMsg : Type 0 where
  pub sender : ℕ
  pub recipient : ℕ
  pub value : ℕ
  pub call_data : Bytes

-- a header that was loaded; the base fee is none for nil
pub record Header : Type 0 where
  pub base_fee : Option ℕ

pub data Fee : Type 0 where
  legacy : ℕ → Fee
  dynamic : ℕ → ℕ → Fee

pub record Transaction : Type 0 where
  pub nonce : ℕ
  pub recipient : ℕ
  pub value : ℕ
  pub gas : ℕ
  pub fee : Fee
  pub call_data : Bytes

-- what became of a transaction that was given to SendTransaction: the call returns without error,
-- or with one. After an error the node may have the transaction all the same, as on a timeout.
pub data SendAnswer : Type 0 where
  accepted failed failed_after_taking : SendAnswer

-- err == nil: all that the source sees of it
abbrev pub no_error : SendAnswer → Bool
no_error accepted = true
no_error failed = false
no_error failed_after_taking = false

-- evmRPCClient
pub record Node : Type 0 where
  pub pending_nonce : ℕ → Option ℕ
  pub suggest_gas_price : Option ℕ
  pub suggest_gas_tip : Option ℕ
  pub header : Option Header
  pub estimate_gas : CallMsg → Option ℕ
  pub send : Transaction → SendAnswer
  pub chain_id : Option ℕ
  pub call_contract : ℕ → Bytes → Option Bytes

-- what the executor takes from go-ethereum; `sign` gives the hash of the signed transaction
pub record Ethereum (K : Type 0) : Type 0 where
  pub hex_to_ecdsa : Text → Option K
  pub address_of : K → ℕ
  pub is_hex_address : Text → Bool
  pub hex_to_address : Text → ℕ
  pub selector : Text → Bytes
  pub pack_sweep : Bytes → ℕ → ℕ → ℕ → Option Bytes
  pub sign : ℕ → K → Transaction → Option Text
  pub decode_hex : Text → Option Bytes

pub record Executor (F K : Type 0) : Type 0 where
  pub clients : Text → Option Node
  pub hot_wallet_key : Option K
  pub gas_buffer_percent : F
  -- the text of a NUMERIC amount
  pub amount_raw : ℕ → Text

pub data ExecError : Type 0 where
  no_client bad_settlement bad_key bad_token decimals_unread decimals_empty decimals_invalid
        bad_amount no_nonce no_gas_price no_gas no_chain_id not_signed not_sent no_hot_wallet
        bad_factory bad_salt not_packed :
      ExecError

-- what the handler computes before it sends: the transaction and its hash once signed
pub record Prepared : Type 0 where
  pub transaction : Transaction
  pub hash : Text

-- SetBytes
abbrev pub of_bytes_from : ℕ → Bytes → ℕ
of_bytes_from n [] = n
of_bytes_from n (b ∷ bs) = of_bytes_from (n * 256 + b) bs

-- Int64: the low 64 bits, with the sign
abbrev pub is_negative_int64 : ℕ → Bool
is_negative_int64 n = leb 9_223_372_036_854_775_808 (n % 18_446_744_073_709_551_616)

abbrev pub low_64 : ℕ → ℕ
low_64 n = n % 18_446_744_073_709_551_616

-- Bytes of a big.Int, from the last: recursion on fuel: n has at most n bytes, so that
-- `suc n` rounds are enough
abbrev pub digits_256 : ℕ → ℕ → Bytes → Bytes
digits_256 zero n rest = rest
digits_256 (suc fuel) zero rest = rest
digits_256 (suc fuel) (suc n) rest = digits_256 fuel (suc n / 256) (suc n % 256 ∷ rest)

unfoldable pub bytes_of : ℕ → Bytes
bytes_of n = digits_256 (suc n) n []

-- common.LeftPadBytes
abbrev pub left_pad_bytes : Bytes → ℕ → Bytes
left_pad_bytes bs n = replicate (n - length bs) 0 ++ bs

unfoldable pub apply_gas_buffer : {F : Type 0} → Float64 F → (ℕ → F) → (F → ℕ) → ℕ → F → ℕ
apply_gas_buffer fl of_nat ceil gas percent =
    let gas' = if ltb gas 21_000 then 21_000 else gas in
    if fl.le percent fl.zero
    then gas'
    else let buffered = fl.mul (of_nat gas') (fl.add fl.one (fl.div percent fl.hundred)) in
      if fl.lt (of_nat 18_446_744_073_709_551_615) buffered
      then 18_446_744_073_709_551_615
      else ceil buffered

abbrev pub of_parsed : Amount.Parsed → Result ExecError ℕ
of_parsed (Amount.ok n) = ok n
of_parsed (Amount.err e) = err bad_amount

module _ {K : Type 0} (eth : Ethereum K) where
  unfoldable pub erc20_transfer_data : ℕ → ℕ → Bytes
  erc20_transfer_data to amount =
      eth.selector (codes "transfer(address,uint256)")
      ++ (left_pad_bytes (left_pad_bytes (bytes_of to) 20) 32
          ++ left_pad_bytes (bytes_of amount) 32)

  unfoldable pub decode_bytes32 : Text → Option Bytes
  decode_bytes32 raw =
      let value = strip_hex_prefix raw in
      if not (length value == 64) then none else elim (eth.decode_hex value) [
        | none ↦ none
        | some bs ↦ if length bs == 32 then some bs else none
      ]

  unfoldable pub erc20_decimals : Node → ℕ → Result ExecError ℕ
  erc20_decimals node token = do
    out ← of_option decimals_unread (node.call_contract token (eth.selector (codes "decimals()")))
    require (not (length out == 0)) decimals_empty
    let decimals = of_bytes_from 0 out
    require (not (is_negative_int64 decimals || ltb 255 (low_64 decimals))) decimals_invalid
    ok (low_64 decimals)

  -- the token's number and decimals, none for the chain's coin
  unfoldable pub token_of : Node → Text → Result ExecError (Option ℕ × ℕ)
  token_of node address = if is_blank address then ok (none, 18) else do
    require (eth.is_hex_address address) bad_token
    decimals ← erc20_decimals node (eth.hex_to_address address)
    ok (some (eth.hex_to_address address), decimals)

  -- common.Address{} for the chain's coin
  abbrev pub or_zero_address : Option ℕ → ℕ
  or_zero_address none = 0
  or_zero_address (some token) = token

  -- the recipient, the value and the data of a payment of `amount`
  unfoldable pub payment : Option ℕ → ℕ → ℕ → ℕ × ℕ × Bytes
  payment none to amount = (to, amount, [])
  payment (some token) to amount = (token, 0, erc20_transfer_data to amount)

  module _ {F : Type 0} (x : Executor F K) where
    unfoldable pub eoa_transaction : Node → Request → Result ExecError Prepared
    unfolding payment token_of erc20_decimals
    eoa_transaction node r = do
      key ← of_option bad_key (eth.hex_to_ecdsa (strip_hex_prefix r.private_key))
      let from = eth.address_of key
      (token, decimals) ← token_of node (trim_space r.token_address)
      amount ← of_parsed (decimal_to_base_units (x.amount_raw r.amount) decimals)
      let (to, value, call_data) = payment token (eth.hex_to_address r.settlement_address) amount
      nonce ← of_option no_nonce (node.pending_nonce from)
      price ← of_option no_gas_price node.suggest_gas_price
      gas ← of_option no_gas (
          node.estimate_gas
            (record { sender = from; recipient = to; value = value; call_data = call_data }))
      chain_id ← of_option no_chain_id node.chain_id
      let tx : Transaction = record {
        nonce = nonce;
        recipient = to;
        value = value;
        gas = if ltb gas 21_000 then 21_000 else gas;
        fee = legacy price;
        call_data = call_data;
      }
      hash ← of_option not_signed (eth.sign chain_id key tx)
      ok (record { transaction = tx; hash = hash })

    unfoldable pub hot_wallet_fee : Node → Result ExecError Fee
    hot_wallet_fee node =
        let fallback = (do
          price ← of_option no_gas_price node.suggest_gas_price
          ok (legacy price)) in
        elim node.header [
          | none ↦ fallback
          | some h ↦ elim h.base_fee [
            | none ↦ fallback
            | some base ↦ elim node.suggest_gas_tip [
              | none ↦ fallback
              | some tip ↦ ok (dynamic tip (base * 2 + tip))
            ]
          ]
        ]

    unfoldable pub create2_transaction :
        Float64 F → (ℕ → F) → (F → ℕ) → Node → Request → Result ExecError Prepared
    unfolding hot_wallet_fee token_of erc20_decimals decode_bytes32 apply_gas_buffer
    create2_transaction fl of_nat ceil node r = do
      key ← of_option no_hot_wallet x.hot_wallet_key
      require (eth.is_hex_address r.factory_address) bad_factory
      salt ← of_option bad_salt (decode_bytes32 r.wallet_salt)
      let settlement = eth.hex_to_address r.settlement_address
      (token, decimals) ← token_of node r.token_address
      amount ← of_parsed (decimal_to_base_units (x.amount_raw r.amount) decimals)
      call_data ←
          of_option not_packed (eth.pack_sweep salt (or_zero_address token) settlement amount)
      let from = eth.address_of key
      let factory = eth.hex_to_address r.factory_address
      nonce ← of_option no_nonce (node.pending_nonce from)
      gas ← of_option no_gas (
          node.estimate_gas
            (record { sender = from; recipient = factory; value = 0; call_data = call_data }))
      chain_id ← of_option no_chain_id node.chain_id
      fee ← hot_wallet_fee node
      let tx : Transaction = record {
        nonce = nonce;
        recipient = factory;
        value = 0;
        gas = apply_gas_buffer fl of_nat ceil gas x.gas_buffer_percent;
        fee = fee;
        call_data = call_data;
      }
      hash ← of_option not_signed (eth.sign chain_id key tx)
      ok (record { transaction = tx; hash = hash })

    -- SendTransaction: the transactions that have been handed to the node, the new one last
    unfoldable pub send_prepared :
        Node
        → Result ExecError Prepared
        → List Transaction
        → Result ExecError Text × List Transaction
    send_prepared node (err e) given = (err e, given)
    send_prepared node (ok p) given =
        let given' = given ++ p.transaction ∷ [] in
        if no_error (node.send p.transaction) then (ok p.hash, given') else (err not_sent, given')

    -- the client is none for a chain without one
    unfoldable pub execute_with :
        Float64 F
        → (ℕ → F)
        → (F → ℕ)
        → Option Node
        → Request
        → List Transaction
        → Result ExecError Text × List Transaction
    execute_with fl of_nat ceil none r given = (err no_client, given)
    execute_with fl of_nat ceil (some node) r given =
        if not (eth.is_hex_address r.settlement_address)
        then (err bad_settlement, given)
        else send_prepared node
            (elim r.wallet_type [
              | WalletType.eoa ↦ eoa_transaction node r
              | WalletType.create2 ↦ create2_transaction fl of_nat ceil node r
            ])
            given

    unfoldable pub execute_payout :
        Float64 F
        → (ℕ → F)
        → (F → ℕ)
        → Request
        → List Transaction
        → Result ExecError Text × List Transaction
    execute_payout fl of_nat ceil r given =
        execute_with fl of_nat ceil (x.clients (to_lower (trim_space r.chain))) r given
