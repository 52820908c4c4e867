-- ===== src/Payout/Executor/Examples.antt =====
-- Tests of the executor, and the theorems at concrete inputs.
use backend_go.Prelude.{
  ℕ, ◌+◌, ◌*◌, ◌/◌, true, none, some, [], ◌∷◌, codes, trim_space, trim_right, length, text_eq,
  if◌then◌else◌, arith, ◌≡◌, refl, ok, err,
}
use backend_go.Float.{fixed_point}
use backend_go.Store.{WalletType}
use backend_go.Payout.Amount.{decimal_to_base_units, combine, set_string, strip_hex_prefix}
use backend_go.Payout.Scheduler.{Request}
use backend_go.Payout.Executor.{
  Node, SendAnswer, Ethereum, Executor, legacy, no_hot_wallet, execute_payout, execute_with,
  send_prepared, eoa_transaction, create2_transaction, token_of, payment, erc20_decimals,
  apply_gas_buffer, erc20_transfer_data,
}
use backend_go.Payout.Executor.Calldata.{abi_word, abi_word-erc20_transfer_data}
use backend_go.Payout.Executor.Once.{Sent, execute_payout-Sent}

abbrev to_fixed : ℕ → ℕ
to_fixed n = n * 100_000_000

abbrev ceil_fixed : ℕ → ℕ
ceil_fixed a = (a + 99_999_999) / 100_000_000

-- keys, hashes and signatures that only serve to run the definitions
abbrev ethereum : Ethereum ℕ
ethereum = record {
  hex_to_ecdsa = λ s. some 7;
  address_of = λ key. key + 1;
  is_hex_address = λ s. true;
  hex_to_address = λ s. 99;
  selector = λ s. 1 ∷ (2 ∷ (3 ∷ (4 ∷ [])));
  pack_sweep = λ salt token to amount. some (9 ∷ []);
  sign = λ chain_id key tx. some (codes "0xhash");
  decode_hex = λ s. none;
}

abbrev node : Node
node = record {
  pending_nonce = λ account. some 5;
  suggest_gas_price = some 30;
  suggest_gas_tip = none;
  header = none;
  estimate_gas = λ msg. some 20_000;
  send = λ tx. SendAnswer.accepted;
  chain_id = some 8_453;
  call_contract = λ to msg. some (6 ∷ []);
}

abbrev executor : Executor ℕ ℕ
executor = record {
  clients = λ chain. if text_eq chain (codes "base") then some node else none;
  hot_wallet_key = none;
  gas_buffer_percent = 2_000_000_000;
  amount_raw = λ n. codes "1.5";
}

abbrev coin_request : Request
coin_request = record {
  payout = 1;
  item = 2;
  intent = 3;
  merchant = 4;
  chain = codes " Base";
  token_symbol = codes "ETH";
  token_address = [];
  amount = 1_500_000_000_000_000_000;
  deposit_address = codes "0xd";
  private_key = codes "0x7";
  wallet_type = WalletType.eoa;
  factory_address = [];
  wallet_salt = [];
  settlement_address = codes "0xs";
}

-- the coin goes to the settlement address, with the least gas there is
coin_payment : execute_payout ethereum executor fixed_point to_fixed ceil_fixed coin_request [] ≡ (
  ok (codes "0xhash"),
  record {
    nonce = 5;
    recipient = 99;
    value = 1_500_000_000_000_000_000;
    gas = 21_000;
    fee = legacy 30;
    call_data = [];
  }
      ∷ [],
)
unfolding execute_payout execute_with send_prepared eoa_transaction token_of payment erc20_decimals
    decimal_to_base_units combine set_string strip_hex_prefix trim_space trim_right
coin_payment = refl

no_hot_wallet_key :
    execute_payout ethereum executor fixed_point to_fixed ceil_fixed
      (record coin_request { wallet_type = WalletType.create2 })
      []
    ≡ (err no_hot_wallet, [])
unfolding execute_payout execute_with send_prepared create2_transaction trim_space
no_hot_wallet_key = refl

-- 20 percent more
buffered : apply_gas_buffer fixed_point to_fixed ceil_fixed 100_001 2_000_000_000 ≡ 120_002
unfolding apply_gas_buffer
buffered = refl

execute_payout-Sent_example :
    Sent ethereum executor coin_request []
      (execute_payout ethereum executor fixed_point to_fixed ceil_fixed coin_request [])
execute_payout-Sent_example =
    execute_payout-Sent ethereum executor fixed_point to_fixed ceil_fixed coin_request []

abi_word-erc20_transfer_data_example :
    (abi_word 4 (erc20_transfer_data ethereum 99 1_500_000) ≡ 99)
    × (abi_word 36 (erc20_transfer_data ethereum 99 1_500_000) ≡ 1_500_000)
    × (length (erc20_transfer_data ethereum 99 1_500_000) ≡ 68)
abi_word-erc20_transfer_data_example =
    abi_word-erc20_transfer_data ethereum 99 1_500_000 refl (omega arith) (omega arith)
