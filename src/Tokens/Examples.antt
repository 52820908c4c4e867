-- ===== src/Tokens/Examples.antt =====
-- Tests of the token table, and the theorem at a concrete input.
use backend_go.Prelude.{true, some, ◌≤◌, codes, ◌≡◌, refl, trim_space}
use backend_go.Tokens.{token, evm_token_contracts, known_evm_token_contract, is_hex_address}
use backend_go.Tokens.Table.{known_evm_token_contract-proper}

usdc_on_base :
    known_evm_token_contract (codes " Base") (codes "usdc ")
    ≡ some (token (codes "0x833589fCD6eDb6E08f4c7C32D4f71b54bdA02913") 6)
unfolding known_evm_token_contract evm_token_contracts trim_space
usdc_on_base = refl

known_evm_token_contract-proper_example :
    (is_hex_address (codes "0x833589fCD6eDb6E08f4c7C32D4f71b54bdA02913") ≡ true) × (6 ≤ 18)
known_evm_token_contract-proper_example =
    known_evm_token_contract-proper (codes " Base") (codes "usdc ")
      (token (codes "0x833589fCD6eDb6E08f4c7C32D4f71b54bdA02913") 6) usdc_on_base
