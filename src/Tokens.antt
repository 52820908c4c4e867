-- ===== src/Tokens.antt =====
-- The table of token contracts: internal/shared/chain/tokens.go, and `isHexAddress` of
-- internal/shared/config/config.go.
pub mod Table
mod Examples
use backend_go.Prelude.{
  ℕ, Bool, true, false, ◌&&◌, ◌||◌, ◌==◌, leb, Option, none, some, List, [], ◌∷◌, Text, codes,
  text_eq, trim_space, to_lower, to_upper, has_prefix, drop, length, all, if◌then◌else◌,
}

pub record TokenContract : Type 0 where
  pub address : Text
  pub decimals : ℕ

abbrev pub token : Text → ℕ → TokenContract
token address decimals = record { address = address; decimals = decimals }

abbrev pub TokenMap : Type 0
TokenMap = List (Text × TokenContract)

abbrev pub ethereum_tokens : TokenMap
ethereum_tokens =
    (codes "USDC", token (codes "0xA0b86991c6218b36c1d19D4a2e9Eb0cE3606eB48") 6)
    ∷ (codes "USDT", token (codes "0xdAC17F958D2ee523a2206206994597C13D831ec7") 6)
    ∷ (codes "DAI", token (codes "0x6B175474E89094C44Da98b954EedeAC495271d0F") 18)
    ∷ (codes "WBTC", token (codes "0x2260FAC5E5542a773Aa44fBCfeDf7C193bc2C599") 8)
    ∷ []

abbrev pub ethereum_mainnet_tokens : TokenMap
ethereum_mainnet_tokens =
    (codes "USDC", token (codes "0xA0b86991c6218b36c1d19D4a2e9Eb0cE3606eB48") 6)
    ∷ (codes "USDT", token (codes "0xdAC17F958D2ee523a2206206994597C13D831ec7") 6)
    ∷ (codes "DAI", token (codes "0x6B175474E89094C44Da98b954EedeAC495271d0F") 18)
    ∷ (codes "WBTC", token (codes "0x2260FAC5E5542a773Aa44fBCfeDf7C193bc2C599") 8)
    ∷ []

abbrev pub optimism_tokens : TokenMap
optimism_tokens =
    (codes "USDC", token (codes "0x0b2C639c533813f4Aa9D7837CAF62653d097Ff85") 6)
    ∷ (codes "USDT", token (codes "0x94b008aA00579c1307B0EF2c499ad98a8ce58e58") 6)
    ∷ (codes "DAI", token (codes "0xDA10009cBd5D07dd0CeCc66161FC93D7c9000da1") 18)
    ∷ (codes "WBTC", token (codes "0x68f180fcCe6836688e9084f035309E29Bf0A2095") 8)
    ∷ (codes "OP", token (codes "0x4200000000000000000000000000000000000042") 18)
    ∷ []

abbrev pub bsc_tokens : TokenMap
bsc_tokens =
    (codes "USDC", token (codes "0x8AC76a51cc950d9822D68b83fE1Ad97B32Cd580d") 18)
    ∷ (codes "USDT", token (codes "0x55d398326f99059fF775485246999027B3197955") 18)
    ∷ (codes "DAI", token (codes "0x1AF3F329e8BE154074D8769D1FFa4eE058B1DBc3") 18)
    ∷ (codes "ETH", token (codes "0x2170Ed0880ac9A755fd29B2688956BD959F933F8") 18)
    ∷ (codes "WBTC", token (codes "0x7130d2A12B9BCbFAe4f2634d864A1Ee1Ce3Ead9c") 18)
    ∷ []

abbrev pub bnb_smart_chain_tokens : TokenMap
bnb_smart_chain_tokens =
    (codes "USDC", token (codes "0x8AC76a51cc950d9822D68b83fE1Ad97B32Cd580d") 18)
    ∷ (codes "USDT", token (codes "0x55d398326f99059fF775485246999027B3197955") 18)
    ∷ (codes "DAI", token (codes "0x1AF3F329e8BE154074D8769D1FFa4eE058B1DBc3") 18)
    ∷ (codes "ETH", token (codes "0x2170Ed0880ac9A755fd29B2688956BD959F933F8") 18)
    ∷ (codes "WBTC", token (codes "0x7130d2A12B9BCbFAe4f2634d864A1Ee1Ce3Ead9c") 18)
    ∷ []

abbrev pub polygon_tokens : TokenMap
polygon_tokens =
    (codes "USDC", token (codes "0x3c499c542cef5e3811e1192ce70d8cc03d5c3359") 6)
    ∷ (codes "USDT", token (codes "0xc2132D05D31c914a87C6611C10748AEb04B58e8F") 6)
    ∷ (codes "DAI", token (codes "0x8f3Cf7ad23Cd3CaDbD9735AFf958023239c6A063") 18)
    ∷ (codes "WBTC", token (codes "0x1BFD67037B42Cf73acF2047067bd4F2C47D9BfD6") 8)
    ∷ []

abbrev pub arbitrum_tokens : TokenMap
arbitrum_tokens =
    (codes "USDC", token (codes "0xaf88d065e77c8cC2239327C5EDb3A432268e5831") 6)
    ∷ (codes "USDT", token (codes "0xFd086bC7CD5C481DCC9C85ebE478A1C0b69FCbb9") 6)
    ∷ (codes "DAI", token (codes "0xDA10009cBd5D07dd0CeCc66161FC93D7c9000da1") 18)
    ∷ (codes "WBTC", token (codes "0x2f2a2543B76A4166549F7aaB2e75Bef0aefC5B0f") 8)
    ∷ (codes "ARB", token (codes "0x912CE59144191C1204E64559FE8253a0e49E6548") 18)
    ∷ []

abbrev pub arbitrum_one_tokens : TokenMap
arbitrum_one_tokens =
    (codes "USDC", token (codes "0xaf88d065e77c8cC2239327C5EDb3A432268e5831") 6)
    ∷ (codes "USDT", token (codes "0xFd086bC7CD5C481DCC9C85ebE478A1C0b69FCbb9") 6)
    ∷ (codes "DAI", token (codes "0xDA10009cBd5D07dd0CeCc66161FC93D7c9000da1") 18)
    ∷ (codes "WBTC", token (codes "0x2f2a2543B76A4166549F7aaB2e75Bef0aefC5B0f") 8)
    ∷ (codes "ARB", token (codes "0x912CE59144191C1204E64559FE8253a0e49E6548") 18)
    ∷ []

abbrev pub base_tokens : TokenMap
base_tokens =
    (codes "USDC", token (codes "0x833589fCD6eDb6E08f4c7C32D4f71b54bdA02913") 6)
    ∷ (codes "USDT", token (codes "0xfde4C96c8593536E31f229EA8f37b2ADa2699bb2") 6)
    ∷ (codes "DAI", token (codes "0x50c5725949A6F0c72E6C4a641F24049A917DB0Cb") 18)
    ∷ (codes "WBTC", token (codes "0x0555E30da8f98308EdB960aa94C0Db47230d2B9c") 8)
    ∷ []

abbrev pub hyperevm_tokens : TokenMap
hyperevm_tokens = (codes "USDT", token (codes "0xB8CE59FC3717ada4C02eaDF9682A9e934F625ebb") 6) ∷ []

abbrev pub hyper_evm_tokens : TokenMap
hyper_evm_tokens = (codes "USDT", token (codes "0xB8CE59FC3717ada4C02eaDF9682A9e934F625ebb") 6) ∷ []

unfoldable pub evm_token_contracts : List (Text × TokenMap)
evm_token_contracts =
    (codes "ethereum", ethereum_tokens)
    ∷ (codes "ethereum mainnet", ethereum_mainnet_tokens)
    ∷ (codes "optimism", optimism_tokens)
    ∷ (codes "bsc", bsc_tokens)
    ∷ (codes "bnb smart chain", bnb_smart_chain_tokens)
    ∷ (codes "polygon", polygon_tokens)
    ∷ (codes "arbitrum", arbitrum_tokens)
    ∷ (codes "arbitrum one", arbitrum_one_tokens)
    ∷ (codes "base", base_tokens)
    ∷ (codes "hyperevm", hyperevm_tokens)
    ∷ (codes "hyper evm", hyper_evm_tokens)
    ∷ []

-- a Go map read at a key
abbrev pub lookup {ℓ} : {A : Type ℓ} → Text → List (Text × A) → Option A
lookup key [] = none
lookup key ((k, a) ∷ m) = let rest = lookup key m in if text_eq k key then some a else rest

abbrev pub by_symbol : Text → Option TokenMap → Option TokenContract
by_symbol symbol none = none
by_symbol symbol (some m) = lookup (to_upper (trim_space symbol)) m

-- none stands for the result `false`
unfoldable pub known_evm_token_contract : Text → Text → Option TokenContract
known_evm_token_contract chain_name symbol =
    by_symbol symbol (lookup (to_lower (trim_space chain_name)) evm_token_contracts)

abbrev pub is_hex_digit : ℕ → Bool
is_hex_digit c =
    (leb b'0' c && leb c b'9') || ((leb b'a' c && leb c b'f') || (leb b'A' c && leb c b'F'))

unfoldable pub is_hex_address : Text → Bool
is_hex_address raw =
    let address = trim_space raw in
    length address == 42 && (has_prefix (codes "0x") address && all is_hex_digit (drop 2 address))
